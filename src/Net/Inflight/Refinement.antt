-- ===== src/Net/Inflight/Refinement.antt =====
-- `InflightRequests` against the specification in Refinement/Requests.
pub mod Requests
pub mod Tables
use mathlib.Core.Logic.{ite}
use s2c_rs.Base.{
  ℕ, suc, ◌<◌, ◌≡◌, refl, sym, ◌∙◌, ap, ◌≢◌, inl, inr, List, [], ◌∷◌, Option, none, some,
  Option-cases, Bytes, Result, ok, err, arith, ℕ_discrete, false, ◌==◌, if◌then◌else◌,
}
use s2c_rs.Net.Error.{ClientError}
use s2c_rs.Proto.{S2cMessage}
use s2c_rs.Net.Inflight.{
  Bytes-discrete, Slot, waiting, dropped, answered, Table, InflightRequests, new, lookup, remove,
  set_slot, settle, settle_all, add, respond, discard, fail_all, clear,
}
use s2c_rs.Net.Inflight.Lookup.{
  lookup-remove, lookup-remove_ne, lookup-remove-some, settle_all-lookup,
}
use s2c_rs.Net.Inflight.Resolution.{Op, adds, discards, responds, fails, clears, step, run}
use s2c_rs.Net.Inflight.Refinement.Requests.{
  Request, pending, forgotten, settled, Spec, no_requests, take, take_every, spec_step, spec_run,
  seen,
}
use s2c_rs.Net.Inflight.Refinement.Tables.{Clean, remove-Clean, settle_all_other}

-- The table and the specification agree.
pub record Agrees (q : InflightRequests) (a : Spec) : Type 0 where
  pub next : q.next ≡ a.next
  pub sees : (i : ℕ) → q.slots i ≡ seen (a.requests i)
  pub listed : (i : ℕ) (k : Bytes) → a.requests i ≡ pending k → lookup k q.requests ≡ some i
  pub held : (k : Bytes) (i : ℕ) → lookup k q.requests ≡ some i → a.requests i ≡ pending k
  pub late : (i : ℕ) (k : Bytes) → a.requests i ≡ pending k → i < a.next
  pub clean : Clean q.requests

-- The sender under `k` leaves the table.
module _ (q : InflightRequests) (a : Spec) (v : Agrees q a) (k : Bytes) (y : Request)
    (n : (j : Bytes) → y ≢ pending j) where
  take_cases : (r : Request) (j : Bytes) → take k y r ≡ pending j → (r ≡ pending j) × (k ≢ j)
  take_cases (pending l) j h = elim (Bytes-discrete k l) [
    | yes e ↦ absurd (n j (ground arith))
    | no e ↦ let same : l ≡ j = ground arith in (ap pending same, λ x. e (x ∙ sym same))
  ]
  take_cases forgotten j h = cc
  take_cases (settled r) j h = cc

  take_sees :
      (i : ℕ) (r : Request)
      → a.requests i ≡ r
      → settle (lookup k q.requests) (seen y) q.slots i ≡ seen (take k y r)
  take_sees i r e = elim (Option-cases (lookup k q.requests)) [
    | inl h ↦ rw h (v.sees i ∙ ap seen e ∙ unlisted r e (λ x. cc))
    | inr (c, h) ↦ elim (ℕ_discrete c i) [
      | yes same ↦
          let here : r ≡ pending k = sym e ∙ v.held k i (h ∙ ap some same) in
          rw (h, here) (ground arith)
      | no other ↦
          let unset : (c == i) ≡ false = ground arith in
          rw (h, unset) (v.sees i ∙ ap seen e ∙ unlisted r e (λ x. other (ground arith)))
    ]
  ]
    where
      unlisted :
          (r : Request)
          → a.requests i ≡ r
          → lookup k q.requests ≢ some i
          → seen r ≡ seen (take k y r)
      unlisted (pending j) e h = elim (Bytes-discrete k j) [
        | yes p ↦ absurd (h (rw p (v.listed i j e)))
        | no p ↦ ground arith
      ]
      unlisted forgotten e h = refl
      unlisted (settled r) e h = refl

  taken-Agrees :
      Agrees
        (record q {
          requests = remove k q.requests;
          slots = settle (lookup k q.requests) (seen y) q.slots;
        })
        (record a { requests = λ i. take k y (a.requests i) })
  taken-Agrees = record {
    next = v.next;
    sees = λ i. take_sees i (a.requests i) refl;
    listed = λ i j h.
        let (e, d) = take_cases (a.requests i) j h in
        lookup-remove_ne k j q.requests d ∙ v.listed i j e;
    held = λ j i h.
        let (d, l) = lookup-remove-some k j q.requests i h in rw (v.held j i l) (ground arith);
    late = λ i j h. v.late i j (take_cases (a.requests i) j h).0;
    clean = remove-Clean k q.requests v.clean;
  }

-- Every sender leaves the table.
emptied-Agrees :
    (q : InflightRequests) (a : Spec) (y : Request)
    → Agrees q a
    → ((j : Bytes) → y ≢ pending j)
    → Agrees
        (record q { requests = []; slots = settle_all q.requests (seen y) q.slots })
        (record a { requests = λ i. take_every y (a.requests i) })
unfolding lookup
emptied-Agrees q a y v n = record {
  next = v.next;
  sees = λ i. every i (a.requests i) refl;
  listed = λ i j h. absurd (every_pending (a.requests i) j h);
  held = λ j i h. cc;
  late = λ i j h. absurd (every_pending (a.requests i) j h);
  clean = tt;
}
  where
    every_pending : (r : Request) (j : Bytes) → take_every y r ≢ pending j
    every_pending (pending l) j h = n j h
    every_pending forgotten j h = cc
    every_pending (settled r) j h = cc

    every :
        (i : ℕ) (r : Request)
        → a.requests i ≡ r
        → settle_all q.requests (seen y) q.slots i ≡ seen (take_every y r)
    every i (pending j) e = settle_all-lookup q.requests (seen y) q.slots j i (v.listed i j e)
    every i forgotten e =
        settle_all_other q.requests (seen y) q.slots i v.clean (λ k l. cc (v.held k i l))
        ∙ v.sees i
        ∙ ap seen e
    every i (settled r) e =
        settle_all_other q.requests (seen y) q.slots i v.clean (λ k l. cc (v.held k i l))
        ∙ v.sees i
        ∙ ap seen e

-- A request under an id that is free.
put_in-Agrees :
    (q : InflightRequests) (a : Spec) (k : Bytes)
    → Agrees q a
    → lookup k q.requests ≡ none
    → Agrees
        (record {
          requests = (k, q.next) ∷ q.requests;
          slots = set_slot q.next waiting q.slots;
          next = suc q.next;
        })
        (record {
          requests = λ i. if a.next == i then pending k else a.requests i;
          next = suc a.next;
        })
unfolding lookup
put_in-Agrees q a k v free = record {
  next = ap suc v.next;
  sees = λ i. ground (arith, v.next, v.sees i);
  listed = λ i j h. elim (ℕ_discrete a.next i) [
    | yes e ↦ let same : k ≡ j = ground arith in ground (arith, v.next)
    | no e ↦
        let l : a.requests i ≡ pending j = ground arith in let m = v.listed i j l in ground arith
  ];
  held = λ j i h. elim (Bytes-discrete k j) [
    | yes e ↦ ground (arith, v.next)
    | no e ↦
        let l : lookup j q.requests ≡ some i = ground arith in
        let m = v.held j i l in let o = v.late i j m in ground arith
  ];
  late = λ i j h. elim (ℕ_discrete a.next i) [
    | yes e ↦ omega arith
    | no e ↦ let l : a.requests i ≡ pending j = ground arith in omega (arith, v.late i j l)
  ];
  clean = (free, v.clean);
}

step-Agrees :
    (q : InflightRequests) (a : Spec) (o : Op) → Agrees q a → Agrees (step q o) (spec_step a o)
unfolding step add discard respond fail_all clear
step-Agrees q a (adds k) v =
    put_in-Agrees _ _ k (taken-Agrees q a v k forgotten (λ j. λ e. cc))
      (ground (arith, lookup-remove k k q.requests))
step-Agrees q a (discards k) v = taken-Agrees q a v k forgotten (λ j. λ e. cc)
step-Agrees q a (responds m) v = taken-Agrees q a v m.correlation_id (settled (ok m)) (λ j. λ e. cc)
step-Agrees q a (fails e) v = emptied-Agrees q a (settled (err e)) v (λ j. λ h. cc)
step-Agrees q a clears v = emptied-Agrees q a forgotten v (λ j. λ h. cc)

run-Agrees :
    (q : InflightRequests) (a : Spec) (os : List Op)
    → Agrees q a
    → Agrees (run q os) (spec_run a os)
unfolding run
run-Agrees q a [] v = v
run-Agrees q a (o ∷ os) v = run-Agrees (step q o) (spec_step a o) os (step-Agrees q a o v)

new-Agrees : Agrees new no_requests
unfolding new lookup
new-Agrees = record {
  next = refl;
  sees = λ i. refl;
  listed = λ i k h. cc;
  held = λ k i h. cc;
  late = λ i k h. cc;
  clean = tt;
}

-- After any sequence of calls on a new table, as many channels were handed out as there are
-- requests in the specification, and each channel holds what its request has come to there: it
-- waits while the request is pending under its id, is dropped where a later request took the id
-- or the request was discarded, and is answered where a response or an error came first.
pub run_refines :
    (os : List Op)
    → ((run new os).next ≡ (spec_run no_requests os).next)
      × ((run new os).slots ≡ (λ i. seen ((spec_run no_requests os).requests i)))
run_refines os = let v = run-Agrees new no_requests os new-Agrees in (v.next, λ x i. v.sees i x)
