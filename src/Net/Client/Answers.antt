-- ===== src/Net/Client/Answers.antt =====
-- To whom a response goes.
use s2c_rs.Base.{ℕ, subst, ◌≡◌, Bool, none, Bytes, ok, err}
use s2c_rs.Codec.{Codec}
use s2c_rs.Config.{S2cOptions}
use s2c_rs.Context.{Context}
use s2c_rs.Net.Client
use s2c_rs.Proto.{S2cMessage}
use s2c_rs.Net.Inflight.{InflightRequests, add}
use s2c_rs.Net.Inflight.Resolution.{IsSound, step-IsSound, new-IsSound, Op, step}
use s2c_rs.Net.Inflight.Channels.{IsTied, add-IsTied, step-IsTied}
use s2c_rs.Net.Client.{
  ClientState, not_connected, connected, ready, closed, running, Call, idle, admitted, registered,
  queued, returned, Client, set_call,
}
use s2c_rs.Net.Client.Invariants.{CallsKeep, Keeps, Reach-Kept}
use s2c_rs.Net.Client.Refusals.{refusals_unheard}
use s2c_rs.Net.Client.System.{Reach}

-- The channel of a call is tied to the call's id, and so is the response that it returned.
abbrev pub CallTied : InflightRequests → Call → Type 0
CallTied q idle = Unit
CallTied q (admitted id payload) = Unit
CallTied q (registered id payload i) = IsTied q id i
CallTied q (queued id i) = IsTied q id i
CallTied q (returned id (ok m)) = m.correlation_id ≡ id
CallTied q (returned id (err e)) = Unit

call_step : (q : InflightRequests) (o : Op) (x : Call) → CallTied q x → CallTied (step q o) x
call_step q o idle t = tt
call_step q o (admitted id payload) t = tt
call_step q o (registered id payload i) t = step-IsTied q o id i t
call_step q o (queued id i) t = step-IsTied q o id i t
call_step q o (returned id (ok m)) t = t
call_step q o (returned id (err e)) t = tt

pub CallTied-CallsKeep : CallsKeep IsSound CallTied
unfolding step add
CallTied-CallsKeep = record {
  of_step = λ q o n v. step-IsSound q o v;
  of_call = λ q o x n v t. call_step q o x t;
  of_idle = λ q. tt;
  of_admitted = λ q id payload. tt;
  of_registered = λ q id payload v. add-IsTied q id v;
  of_queued = λ q id payload i t. t;
  of_error = λ q id e. tt;
  of_answer = λ q id i m v t h. t.answer m h;
}

abbrev pub ClientTied : Client → Type 0
ClientTied = Keeps IsSound CallTied CallTied-CallsKeep

module _ (runs : Bool → Bool) (C : Codec S2cMessage) where
  pub Reach-Tied : {c d : Client} → Reach runs C c d → ClientTied c → ClientTied d
  Reach-Tied r t = Reach-Kept IsSound CallTied CallTied-CallsKeep runs C r t

  pub new-Tied : (o : S2cOptions) (context : Context) → ClientTied (Client.new o context)
  unfolding Client.new
  new-Tied o context = (new-IsSound, λ k. tt)

  -- In every state that a new client can reach, by any interleaving of its callers, its tasks and
  -- the network, a call that has returned a message has returned one with its own correlation id
  -- and without an error.
  pub answers_match :
      (o : S2cOptions) (context : Context) (c : Client) (k : ℕ) (id : Bytes) (m : S2cMessage)
      → Reach runs C (Client.new o context) c
      → c.calls k ≡ returned id (ok m)
      → (m.correlation_id ≡ id) × (m.error ≡ none)
  answers_match o context c k id m r h = (
    subst (CallTied c.inflight_requests) h ((Reach-Tied r (new-Tied o context)).1 k),
    refusals_unheard runs C o context c k id m r h,
  )
