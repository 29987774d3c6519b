-- ===== src/Net/Client/Refusals.antt =====
-- Whether a refusal reaches the call that waits for it.
use s2c_rs.Base.{
  ℕ, [], ◌∷◌, ◌≡◌, Bool-cases, inl, inr, subst, Option, none, some, Bytes, ok, err, Bool, ◌==◌,
}
use s2c_rs.Codec.{Codec}
use s2c_rs.Config.{S2cOptions}
use s2c_rs.Context.{Context}
use s2c_rs.Proto.{S2cMessage}
use s2c_rs.Net.Inflight.{
  InflightRequests, Slot, Table, waiting, dropped, answered, set_slot, settle, settle_all, add,
  respond, discard, fail_all, clear,
}
use s2c_rs.Net.Inflight
use s2c_rs.Net.Inflight.Resolution.{Op, adds, discards, responds, fails, clears, step}
use s2c_rs.Net.Client.{Call, idle, admitted, registered, queued, returned, Client}
use s2c_rs.Net.Client
use s2c_rs.Net.Client.Invariants.{HasNoError, CallsKeep, Reach-Kept}
use s2c_rs.Net.Client.System.{Reach}

-- A message that a channel or a call holds has no error.
abbrev IsClean : Slot → Type 0
IsClean waiting = Unit
IsClean dropped = Unit
IsClean (answered (ok m)) = m.error ≡ none
IsClean (answered (err e)) = Unit

abbrev AreClean : (ℕ → Slot) → Type 0
AreClean slots = (i : ℕ) → IsClean (slots i)

abbrev CallClean : InflightRequests → Call → Type 0
CallClean q idle = Unit
CallClean q (admitted id payload) = Unit
CallClean q (registered id payload i) = Unit
CallClean q (queued id i) = Unit
CallClean q (returned id (ok m)) = m.error ≡ none
CallClean q (returned id (err e)) = Unit

set_slot-AreClean :
    (n : ℕ) (x : Slot) (slots : ℕ → Slot)
    → IsClean x
    → AreClean slots
    → AreClean (set_slot n x slots)
set_slot-AreClean n x slots a h i = elim (Bool-cases (n == i)) [
  | inl e ↦ rw e a
  | inr e ↦ rw e (h i)
]

settle-AreClean :
    (o : Option ℕ) (x : Slot) (slots : ℕ → Slot)
    → IsClean x
    → AreClean slots
    → AreClean (settle o x slots)
settle-AreClean none x slots a h = h
settle-AreClean (some n) x slots a h = set_slot-AreClean n x slots a h

settle_all-AreClean :
    (t : Table) (x : Slot) (slots : ℕ → Slot)
    → IsClean x
    → AreClean slots
    → AreClean (settle_all t x slots)
unfolding settle_all
settle_all-AreClean [] x slots a h = h
settle_all-AreClean ((k, n) ∷ t) x slots a h =
    settle_all-AreClean t x (set_slot n x slots) a (set_slot-AreClean n x slots a h)

step-AreClean :
    (q : InflightRequests) (o : Op) → HasNoError o → AreClean q.slots → AreClean (step q o).slots
unfolding step add discard respond fail_all clear
step-AreClean q (adds id) n h =
    set_slot-AreClean q.next waiting _ tt (settle-AreClean _ dropped q.slots tt h)
step-AreClean q (discards id) n h = settle-AreClean _ dropped q.slots tt h
step-AreClean q (responds m) n h = settle-AreClean _ (answered (ok m)) q.slots n h
step-AreClean q (fails e) n h = settle_all-AreClean q.requests (answered (err e)) q.slots tt h
step-AreClean q clears n h = settle_all-AreClean q.requests dropped q.slots tt h

call-Clean : (q r : InflightRequests) (x : Call) → CallClean q x → CallClean r x
call-Clean q r idle h = tt
call-Clean q r (admitted id payload) h = tt
call-Clean q r (registered id payload i) h = tt
call-Clean q r (queued id i) h = tt
call-Clean q r (returned id (ok m)) h = h
call-Clean q r (returned id (err e)) h = tt

Clean-CallsKeep : CallsKeep (λ q. AreClean q.slots) CallClean
Clean-CallsKeep = record {
  of_step = step-AreClean;
  of_call = λ q o x n v t. call-Clean q (step q o) x t;
  of_idle = λ q. tt;
  of_admitted = λ q id payload. tt;
  of_registered = λ q id payload v. tt;
  of_queued = λ q id payload i t. tt;
  of_error = λ q id e. tt;
  of_answer = λ q id i m v t h. subst IsClean h (v i);
}

module _ (runs : Bool → Bool) (C : Codec S2cMessage) where
  pub refusals_unheard :
      (o : S2cOptions) (context : Context) (c : Client) (k : ℕ) (id : Bytes) (m : S2cMessage)
      → Reach runs C (Client.new o context) c
      → c.calls k ≡ returned id (ok m)
      → m.error ≡ none
  unfolding Client.new Inflight.new
  refusals_unheard o context c k id m r h =
      let kept =
        Reach-Kept (λ q. AreClean q.slots) CallClean Clean-CallsKeep runs C r
          ((λ i. tt), (λ j. tt)) in
      subst (CallClean c.inflight_requests) h (kept.1 k)
