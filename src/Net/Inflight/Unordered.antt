-- ===== src/Net/Inflight/Unordered.antt =====
-- The table as the HashMap that it stands for, whose entries have no order.
use mathlib.Core.Path.{fun_ext}
use mathlib.Core.Quot
use mathlib.Core.Quot.{Quot, Quot-set}
use s2c_rs.Base.{
  ℕ, suc, ◌≡◌, refl, sym, ◌∙◌, ap, ◌≢◌, ◌⊎◌, inl, inr, List, [], ◌∷◌, some, Bytes, err, arith,
  ℕ_discrete,
}
use s2c_rs.Net.Inflight.{
  Bytes-discrete, Slot, dropped, answered, Table, InflightRequests, lookup, settle_all, add,
  respond, discard, fail_all, clear,
}
use s2c_rs.Net.Inflight.Lookup.{lookup-remove, settle_all-lookup}
use s2c_rs.Net.Inflight.Resolution.{Op, adds, discards, responds, fails, clears, step, run}
use s2c_rs.Net.Inflight.Refinement.Tables.{Clean, remove-Clean, settle_all_other}

-- Two tables with the same senders under the same ids, in any order.
pub record SameSenders (q r : InflightRequests) : Type 0 where
  pub next : q.next ≡ r.next
  pub slots : q.slots ≡ r.slots
  pub finds : (k : Bytes) → lookup k q.requests ≡ lookup k r.requests

Slot-IsSet : IsSet Slot
Slot-IsSet = hlevel

listed_cases :
    (t : Table) (i : ℕ)
    → Clean t
    → ((k : Bytes) × (lookup k t ≡ some i)) ⊎ ((k : Bytes) → lookup k t ≢ some i)
unfolding lookup
listed_cases [] i c = inr (λ k h. cc)
listed_cases ((k, n) ∷ t) i c = elim (ℕ_discrete n i) [
  | yes e ↦ inl (k, ground arith)
  | no e ↦ elim (listed_cases t i c.1) [
    | inl (j, l) ↦
        inl (j, elim (Bytes-discrete k j) [ yes x ↦ cc (rw x at c.0) | no x ↦ ground arith ])
    | inr n ↦ inr (λ j h. ground (arith, n j))
  ]
]

settle_all_same :
    (t u : Table) (x : Slot) (slots : ℕ → Slot) (i : ℕ)
    → Clean t
    → Clean u
    → ((k : Bytes) → lookup k t ≡ lookup k u)
    → settle_all t x slots i ≡ settle_all u x slots i
settle_all_same t u x slots i c d e = elim (listed_cases t i c) [
  | inl (k, l) ↦
      settle_all-lookup t x slots k i l ∙ sym (settle_all-lookup u x slots k i (sym (e k) ∙ l))
  | inr n ↦
      settle_all_other t x slots i c n ∙ sym (settle_all_other u x slots i d (λ k l. n k (e k ∙ l)))
]

settled_slots :
    (q r : InflightRequests) (x : Slot)
    → Clean q.requests
    → Clean r.requests
    → SameSenders q r
    → settle_all q.requests x q.slots ≡ settle_all r.requests x r.slots
settled_slots q r x c d s =
    ap (settle_all q.requests x) s.slots
    ∙ fun_ext (λ i. settle_all_same q.requests r.requests x r.slots i c d s.finds)

step-SameSenders :
    (q r : InflightRequests) (o : Op)
    → Clean q.requests
    → Clean r.requests
    → SameSenders q r
    → SameSenders (step q o) (step r o)
unfolding step add discard respond fail_all clear lookup
step-SameSenders q r (adds k) c d s = record {
  next = ap suc s.next;
  slots = rw (s.next, s.slots, s.finds k) refl;
  finds = λ j.
      ground (arith, lookup-remove k j q.requests, lookup-remove k j r.requests, s.finds j, s.next);
}
step-SameSenders q r (discards k) c d s = record {
  next = s.next;
  slots = rw (s.slots, s.finds k) refl;
  finds =
      λ j. ground (arith, lookup-remove k j q.requests, lookup-remove k j r.requests, s.finds j);
}
step-SameSenders q r (responds m) c d s = record {
  next = s.next;
  slots = rw (s.slots, s.finds m.correlation_id) refl;
  finds = λ j. ground (
    arith,
    lookup-remove m.correlation_id j q.requests,
    lookup-remove m.correlation_id j r.requests,
    s.finds j,
  );
}
step-SameSenders q r (fails e) c d s = record {
  next = s.next;
  slots = settled_slots q r (answered (err e)) c d s;
  finds = λ j. refl;
}
step-SameSenders q r clears c d s = record {
  next = s.next;
  slots = settled_slots q r dropped c d s;
  finds = λ j. refl;
}

step-Clean : (q : InflightRequests) (o : Op) → Clean q.requests → Clean (step q o).requests
unfolding step add discard respond fail_all clear
step-Clean q (adds k) c =
    (ground (arith, lookup-remove k k q.requests), remove-Clean k q.requests c)
step-Clean q (discards k) c = remove-Clean k q.requests c
step-Clean q (responds m) c = remove-Clean m.correlation_id q.requests c
step-Clean q (fails e) c = tt
step-Clean q clears c = tt

pub run-Clean : (q : InflightRequests) (os : List Op) → Clean q.requests → Clean (run q os).requests
unfolding run
run-Clean q [] c = c
run-Clean q (o ∷ os) c = run-Clean (step q o) os (step-Clean q o c)

run-SameSenders :
    (q r : InflightRequests) (os : List Op)
    → Clean q.requests
    → Clean r.requests
    → SameSenders q r
    → SameSenders (run q os) (run r os)
unfolding run
run-SameSenders q r [] c d s = s
run-SameSenders q r (o ∷ os) c d s =
    run-SameSenders (step q o) (step r o) os (step-Clean q o c) (step-Clean r o d)
      (step-SameSenders q r o c d s)

-- A table that has no id twice.
abbrev pub Tidy : Type 0
Tidy = (q : InflightRequests) × Clean q.requests

-- The tables without the order of their entries.
abbrev pub Unordered : Type 0
Unordered = Quot (λ (a b : Tidy). SameSenders a.0 b.0)

abbrev pub run_tidy : Tidy → List Op → Tidy
run_tidy a os = (run a.0 os, run-Clean a.0 os a.1)

same_after :
    (os : List Op) (a b : Tidy) → SameSenders a.0 b.0 → SameSenders (run a.0 os) (run b.0 os)
same_after os a b s = run-SameSenders a.0 b.0 os a.1 b.1 s

abbrev after : List Op → Unordered → Unordered
after os =
    Quot.lift Quot-set (λ a. Quot.mk (run_tidy a os)) (λ a b s. Quot.sound (same_after os a b s))

channels-IsSet : IsSet (ℕ → Slot)
channels-IsSet = hlevel Slot-IsSet

abbrev channels : Unordered → ℕ → Slot
channels = Quot.lift channels-IsSet (λ a. a.0.slots) (λ a b s. s.slots)

-- If two tables that have no id twice are equal as unordered tables, which have the same next
-- channel, the same channels and the same sender under each id, then after any sequence of calls
-- they are equal as unordered tables and every channel has come to the same.
pub run_unordered :
    (a b : Tidy) (os : List Op)
    → ◌≡◌ {A = Unordered} (Quot.mk a) (Quot.mk b)
    → (◌≡◌ {A = Unordered} (Quot.mk (run_tidy a os)) (Quot.mk (run_tidy b os)))
      × ((run a.0 os).slots ≡ (run b.0 os).slots)
run_unordered a b os e = let now = ap (after os) e in (now, ap channels now)
