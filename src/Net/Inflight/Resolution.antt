-- ===== src/Net/Inflight/Resolution.antt =====
-- Who waits, and who is answered.
use s2c_rs.Base.{
  ℕ, suc, ◌<◌, ◌≡◌, refl, sym, ◌∙◌, ◌≢◌, inl, inr, List, [], ◌∷◌, Option, none, some, Option-cases,
  Bytes, ok, err, arith, ℕ_discrete,
}
use s2c_rs.Net.Error.{ClientError}
use s2c_rs.Proto.{S2cMessage}
use s2c_rs.Net.Inflight.{
  Slot, waiting, dropped, answered, InflightRequests, new, lookup, remove, set_slot, settle,
  settle_all, add, respond, discard, fail_all, clear,
}
use s2c_rs.Net.Inflight.Lookup.{
  lookup-remove, lookup-remove_ne, lookup-remove-some, settle_all-lookup, settle_all_cases,
}

-- A registered channel was handed out and waits, it is registered once, and whoever waits is
-- registered.
pub record IsSound (q : InflightRequests) : Type 0 where
  pub registered :
      (k : Bytes) (i : ℕ) → lookup k q.requests ≡ some i → (q.slots i ≡ waiting) × (i < q.next)
  pub once :
      (j k : Bytes) (i : ℕ) → lookup j q.requests ≡ some i → lookup k q.requests ≡ some i → j ≡ k
  pub waited :
      (i : ℕ) → i < q.next → q.slots i ≡ waiting → (k : Bytes) × (lookup k q.requests ≡ some i)

pub new-IsSound : IsSound new
unfolding new lookup
new-IsSound = record {
  registered = λ k i h. cc;
  once = λ j k i h l. cc;
  waited = λ i h. absurd (omega arith);
}

-- What takes one sender out of the table and settles its channel.
abbrev taken_out : Bytes → Slot → InflightRequests → InflightRequests
taken_out k x q = record q {
  requests = remove k q.requests;
  slots = settle (lookup k q.requests) x q.slots;
}

settle-waiting :
    (o : Option ℕ) (x : Slot) (slots : ℕ → Slot) (i : ℕ)
    → x ≢ waiting
    → settle o x slots i ≡ waiting
    → (slots i ≡ waiting) × (o ≢ some i)
settle-waiting none x slots i n h = (h, λ e. cc)
settle-waiting (some c) x slots i n h = (ground arith, λ e. ground arith)

module _ (q : InflightRequests) (v : IsSound q) (k : Bytes) (x : Slot) (n : x ≢ waiting) where
  settle_other :
      (j : Bytes) (i : ℕ)
      → k ≢ j
      → lookup j q.requests ≡ some i
      → settle (lookup k q.requests) x q.slots i ≡ q.slots i
  settle_other j i d h = elim (Option-cases (lookup k q.requests)) [
    | inl e ↦ rw e refl
    | inr (c, e) ↦ rw e (ground (arith, v.once k j c e))
  ]

  taken_out-IsSound : IsSound (taken_out k x q)
  taken_out-IsSound = record {
    registered = λ j i h.
        let (d, h') = lookup-remove-some k j q.requests i h in
        (settle_other j i d h' ∙ (v.registered j i h').0, (v.registered j i h').1);
    once = λ j l i h m.
        v.once j l i (lookup-remove-some k j q.requests i h).1
          (lookup-remove-some k l q.requests i m).1;
    waited = λ i h w.
        let (o, away) = settle-waiting (lookup k q.requests) x q.slots i n w in
        let (j, e) = v.waited i h o in
        (j, lookup-remove_ne k j q.requests (λ same. away (rw same e)) ∙ e);
  }

abbrev put_in : Bytes → InflightRequests → InflightRequests
put_in k q = record {
  requests = (k, q.next) ∷ q.requests;
  slots = set_slot q.next waiting q.slots;
  next = suc q.next;
}

put_in-waited :
    (q : InflightRequests) (k : Bytes) (i : ℕ)
    → IsSound q
    → lookup k q.requests ≡ none
    → i < suc q.next
    → (put_in k q).slots i ≡ waiting
    → (j : Bytes) × (lookup j (put_in k q).requests ≡ some i)
unfolding lookup
put_in-waited q k i v free h w = elim (ℕ_discrete q.next i) [
  | yes e ↦ (k, ground arith)
  | no e ↦ let (j, l) = v.waited i (omega arith) (ground arith) in (j, ground arith)
]

put_in-IsSound :
    (q : InflightRequests) (k : Bytes)
    → IsSound q
    → lookup k q.requests ≡ none
    → IsSound (put_in k q)
unfolding lookup
put_in-IsSound q k v free = record {
  registered = λ j i h. ground (arith, v.registered j i);
  once = λ j l i h m. ground (arith, v.registered j i, v.registered l i, v.once j l i);
  waited = λ i. put_in-waited q k i v free;
}

add-IsSound : (q : InflightRequests) (k : Bytes) → IsSound q → IsSound (add k q).1
unfolding add
add-IsSound q k v =
    put_in-IsSound (taken_out k dropped q) k (taken_out-IsSound q v k dropped (λ e. cc))
      (ground (arith, lookup-remove k k q.requests))

settled-IsSound :
    (q : InflightRequests) (x : Slot)
    → IsSound q
    → x ≢ waiting
    → IsSound (record q { requests = []; slots = settle_all q.requests x q.slots })
unfolding lookup
settled-IsSound q x v n = record {
  registered = λ k i h. cc;
  once = λ j k i h l. cc;
  waited = λ i h w. absurd (elim (settle_all_cases q.requests x q.slots i) [
    | inl e ↦ n (sym e ∙ w)
    | inr e ↦
        let (k, l) = v.waited i h (sym e ∙ w) in
        n (sym (settle_all-lookup q.requests x q.slots k i l) ∙ w)
  ]);
}

pub data Op : Type 0 where
  adds discards : Bytes → Op
  responds : S2cMessage → Op
  fails : ClientError → Op
  clears : Op

unfoldable pub step : InflightRequests → Op → InflightRequests
step q (adds k) = (add k q).1
step q (discards k) = discard k q
step q (responds m) = respond m q
step q (fails e) = fail_all e q
step q clears = clear q

unfoldable pub run : InflightRequests → List Op → InflightRequests
run q [] = q
run q (o ∷ os) = run (step q o) os

pub step-IsSound : (q : InflightRequests) (o : Op) → IsSound q → IsSound (step q o)
unfolding step discard respond fail_all clear
step-IsSound q (adds k) v = add-IsSound q k v
step-IsSound q (discards k) v = taken_out-IsSound q v k dropped (λ e. cc)
step-IsSound q (responds m) v = taken_out-IsSound q v m.correlation_id (answered (ok m)) (λ e. cc)
step-IsSound q (fails e) v = settled-IsSound q (answered (err e)) v (λ h. cc)
step-IsSound q clears v = settled-IsSound q dropped v (λ h. cc)

run-IsSound : (q : InflightRequests) (os : List Op) → IsSound q → IsSound (run q os)
unfolding run
run-IsSound q [] v = v
run-IsSound q (o ∷ os) v = run-IsSound (step q o) os (step-IsSound q o v)

-- After any sequence of calls on a new table, a registered channel was handed out and still
-- waits, no channel is registered under two ids, and every channel that still waits is
-- registered.
pub run-new-IsSound : (os : List Op) → IsSound (run new os)
run-new-IsSound os = run-IsSound new os new-IsSound

-- If a channel is registered under the correlation id of a response, the response goes to this
-- channel and no other one changes, and nothing is registered under the id any more.
pub respond_lem :
    (q : InflightRequests) (m : S2cMessage) (i : ℕ)
    → lookup m.correlation_id q.requests ≡ some i
    → ((respond m q).slots i ≡ answered (ok m))
      × ((j : ℕ) → i ≢ j → (respond m q).slots j ≡ q.slots j)
      × (lookup m.correlation_id (respond m q).requests ≡ none)
unfolding respond
respond_lem q m i h = (
  rw h (ground arith),
  λ j n. rw h (ground arith),
  ground (arith, lookup-remove m.correlation_id m.correlation_id q.requests),
)

-- After any sequence of calls on a new table, `fail_all` answers every channel that waits with
-- its error.
pub fail_all_reaches :
    (os : List Op) (e : ClientError) (i : ℕ)
    → i < (run new os).next
    → (run new os).slots i ≡ waiting
    → (fail_all e (run new os)).slots i ≡ answered (err e)
unfolding fail_all
fail_all_reaches os e i h w =
    let q = run new os in
    let (k, l) = (run-new-IsSound os).waited i h w in
    settle_all-lookup q.requests (answered (err e)) q.slots k i l
