-- ===== src/Net/Inflight/Lookup.antt =====
-- The laws of the table.
use mathlib.Core.Logic.{ite}
use s2c_rs.Base.{ℕ, ◌≡◌, refl, ◌≢◌, ◌⊎◌, [], ◌∷◌, none, some, Bytes, arith, inr}
use s2c_rs.Net.Inflight.{Bytes-discrete, Slot, Table, lookup, remove, set_slot, settle_all}

pub lookup-remove :
    (k j : Bytes) (t : Table) → lookup j (remove k t) ≡ ite (Bytes-discrete k j) none (lookup j t)
unfolding lookup remove
lookup-remove k j [] = ground arith
lookup-remove k j ((i, n) ∷ t) = ground (arith, lookup-remove k j t)

pub lookup-remove_ne : (k j : Bytes) (t : Table) → k ≢ j → lookup j (remove k t) ≡ lookup j t
lookup-remove_ne k j t h = ground (arith, lookup-remove k j t)

pub lookup-remove-some :
    (k j : Bytes) (t : Table) (i : ℕ)
    → lookup j (remove k t) ≡ some i
    → (k ≢ j) × (lookup j t ≡ some i)
lookup-remove-some k j t i h = ground (arith, lookup-remove k j t)

settle_all_keeps :
    (t : Table) (x : Slot) (slots : ℕ → Slot) (i : ℕ) → slots i ≡ x → settle_all t x slots i ≡ x
unfolding settle_all
settle_all_keeps [] x slots i h = h
settle_all_keeps ((k, n) ∷ t) x slots i h =
    settle_all_keeps t x (set_slot n x slots) i (ground arith)

-- Whatever leaves the table is settled.
pub settle_all-lookup :
    (t : Table) (x : Slot) (slots : ℕ → Slot) (k : Bytes) (i : ℕ)
    → lookup k t ≡ some i
    → settle_all t x slots i ≡ x
unfolding settle_all lookup
settle_all-lookup [] x slots k i h = cc
settle_all-lookup ((j, n) ∷ t) x slots k i h = elim (Bytes-discrete j k) [
  | yes e ↦ settle_all_keeps t x (set_slot n x slots) i (ground arith)
  | no e ↦ settle_all-lookup t x (set_slot n x slots) k i (ground arith)
]

pub settle_all_cases :
    (t : Table) (x : Slot) (slots : ℕ → Slot) (i : ℕ)
    → (settle_all t x slots i ≡ x) ⊎ (settle_all t x slots i ≡ slots i)
unfolding settle_all
settle_all_cases [] x slots i = inr refl
settle_all_cases ((k, n) ∷ t) x slots i =
    ground (arith, settle_all_cases t x (set_slot n x slots) i)
