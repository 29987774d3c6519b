-- ===== src/Net/Inflight/Channels.antt =====
-- Which responses a channel can carry.
use s2c_rs.Base.{
  ℕ, ◌<◌, ◌≡◌, refl, sym, ap, ◌∙◌, ◌≢◌, ◌⊎◌, inl, inr, [], Option, none, some, Bytes, ok, err,
  arith, ℕ_discrete,
}
use s2c_rs.Proto.{S2cMessage}
use s2c_rs.Net.Inflight.{
  Bytes-discrete, Slot, dropped, answered, InflightRequests, lookup, remove, settle, settle_all,
  add, respond, discard, fail_all, clear,
}
use s2c_rs.Net.Inflight.Lookup.{lookup-remove-some, settle_all_cases}
use s2c_rs.Net.Inflight.Resolution.{IsSound, Op, adds, discards, responds, fails, clears, step}

-- A channel that was handed out for an id is registered under this id only, and carries no response
-- to another one.
pub record IsTied (q : InflightRequests) (id : Bytes) (i : ℕ) : Type 0 where
  pub handed : i < q.next
  pub mine : (j : Bytes) → lookup j q.requests ≡ some i → j ≡ id
  pub answer : (m : S2cMessage) → q.slots i ≡ answered (ok m) → m.correlation_id ≡ id

pub add-IsTied : (q : InflightRequests) (id : Bytes) → IsSound q → IsTied (add id q).1 id q.next
unfolding add lookup
add-IsTied q id v = record {
  handed = omega arith;
  mine = λ j h. elim (Bytes-discrete id j) [
    | yes e ↦ sym e
    | no e ↦
        let h' : lookup j (remove id q.requests) ≡ some q.next = ground arith in
        let l = (lookup-remove-some id j q.requests q.next h').1 in
        absurd (omega (arith, (v.registered j q.next l).1))
  ];
  answer = λ m h. ground arith;
}

-- A slot after a sender left the table.
pub settle_cases :
    (o : Option ℕ) (x : Slot) (slots : ℕ → Slot) (i : ℕ)
    → ((o ≡ some i) × (settle o x slots i ≡ x)) ⊎ (settle o x slots i ≡ slots i)
settle_cases none x slots i = inr refl
settle_cases (some c) x slots i = elim (ℕ_discrete c i) [
  | yes e ↦ inl (ap some e, ground arith)
  | no e ↦ inr (ground arith)
]

module _ (q : InflightRequests) (id : Bytes) (i : ℕ) (t : IsTied q id i) where
  taken_answer :
      (k : Bytes) (x : Slot)
      → ((m : S2cMessage) → x ≡ answered (ok m) → m.correlation_id ≡ k)
      → (m : S2cMessage) → settle (lookup k q.requests) x q.slots i ≡ answered (ok m)
      → m.correlation_id ≡ id
  taken_answer k x of m h = elim (settle_cases (lookup k q.requests) x q.slots i) [
    | inl (o, e) ↦ of m (sym e ∙ h) ∙ t.mine k o
    | inr e ↦ t.answer m (sym e ∙ h)
  ]

  taken-IsTied :
      (k : Bytes) (x : Slot)
      → ((m : S2cMessage) → x ≡ answered (ok m) → m.correlation_id ≡ k)
      → IsTied
          (record q {
            requests = remove k q.requests;
            slots = settle (lookup k q.requests) x q.slots;
          })
          id
          i
  taken-IsTied k x of = record {
    handed = t.handed;
    mine = λ j h. t.mine j (lookup-remove-some k j q.requests i h).1;
    answer = taken_answer k x of;
  }

  emptied-IsTied :
      (x : Slot)
      → ((m : S2cMessage) → x ≢ answered (ok m))
      → IsTied (record q { requests = []; slots = settle_all q.requests x q.slots }) id i
  unfolding lookup
  emptied-IsTied x n = record {
    handed = t.handed;
    mine = λ j h. cc;
    answer = λ m h. elim (settle_all_cases q.requests x q.slots i) [
      | inl e ↦ absurd (n m (sym e ∙ h))
      | inr e ↦ t.answer m (sym e ∙ h)
    ];
  }

  added-IsTied : (k : Bytes) → IsTied (add k q).1 id i
  unfolding add lookup
  added-IsTied k =
      let u = taken-IsTied k dropped (λ m e. cc) in
      record {
        handed = omega (arith, t.handed);
        mine = λ j h. elim (Bytes-discrete k j) [
          | yes e ↦ absurd (ground (arith, t.handed))
          | no e ↦ u.mine j (ground arith)
        ];
        answer = λ m h. u.answer m (ground (arith, t.handed));
      }

pub step-IsTied :
    (q : InflightRequests) (o : Op) (id : Bytes) (i : ℕ) → IsTied q id i → IsTied (step q o) id i
unfolding step discard respond fail_all clear
step-IsTied q (adds k) id i t = added-IsTied q id i t k
step-IsTied q (discards k) id i t = taken-IsTied q id i t k dropped (λ m e. cc)
step-IsTied q (responds m) id i t =
    taken-IsTied q id i t m.correlation_id (answered (ok m)) (λ n e. grind arith)
step-IsTied q (fails e) id i t = emptied-IsTied q id i t (answered (err e)) (λ m h. cc)
step-IsTied q clears id i t = emptied-IsTied q id i t dropped (λ m h. cc)
