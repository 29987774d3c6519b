-- ===== src/Net/Inflight/Refinement/Tables.antt =====
-- Tables without an id twice.
use mathlib.Core.Logic.{ite}
use s2c_rs.Base.{ℕ, ◌≡◌, refl, sym, ◌∙◌, ◌≢◌, [], ◌∷◌, none, some, Bytes, arith, ℕ_discrete}
use s2c_rs.Net.Inflight.{Bytes-discrete, Slot, Table, lookup, remove, set_slot, settle_all}
use s2c_rs.Net.Inflight.Lookup.{lookup-remove_ne}

-- No entry of the table hides another one.
abbrev pub Clean : Table → Type 0
Clean [] = Unit
Clean ((k, i) ∷ t) = (lookup k t ≡ none) × Clean t

pub remove-Clean : (k : Bytes) (t : Table) → Clean t → Clean (remove k t)
unfolding remove Bytes-discrete
remove-Clean k [] c = tt
remove-Clean k ((j, i) ∷ t) c =
    elim (Bytes-discrete j k) as (λ d. Clean (ite d (remove k t) ((j, i) ∷ remove k t))) [
      | yes e ↦ remove-Clean k t c.1
      | no e ↦ (lookup-remove_ne k j t (λ x. e (sym x)) ∙ c.0, remove-Clean k t c.1)
    ]

pub settle_all_other :
    (t : Table) (x : Slot) (slots : ℕ → Slot) (i : ℕ)
    → Clean t
    → ((k : Bytes) → lookup k t ≢ some i)
    → settle_all t x slots i ≡ slots i
unfolding settle_all lookup
settle_all_other [] x slots i c h = refl
settle_all_other ((k, n) ∷ t) x slots i c h =
    settle_all_other t x (set_slot n x slots) i c.1
      (λ j l. elim (Bytes-discrete k j) [ yes e ↦ cc (rw e at c.0) | no e ↦ h j (ground arith) ])
    ∙ (elim (ℕ_discrete n i) [ yes e ↦ absurd (h k (ground arith)) | no e ↦ ground arith ])
