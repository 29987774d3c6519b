-- ===== src/Base/Results.antt =====
-- Rust's `Result`, and what running a body of code comes to.
use mathlib.Core.Path.{◌≡◌, refl}
use mathlib.Core.Logic.{◌⊎◌, inl, inr}

pub data Result (A E : Type 0) : Type 0 where
  ok : A → Result A E
  err : E → Result A E

pub Result-cases :
    {A E : Type 0} (r : Result A E) → ((a : A) × (r ≡ ok a)) ⊎ ((e : E) × (r ≡ err e))
Result-cases (ok a) = inl (a, refl)
Result-cases (err e) = inr (e, refl)

-- A body returns, panics, or is still in its loop when the fuel is used up.
pub data Outcome (A : Type 0) : Type 0 where
  returns : A → Outcome A
  panics : Outcome A
  running : Outcome A

infixl 5 ◌>>=◌
abbrev pub ◌>>=◌ : {A B : Type 0} → Outcome A → (A → Outcome B) → Outcome B
returns a >>= f = f a
panics >>= f = panics
running >>= f = running

pub Outcome-cases :
    {A : Type 0} (o : Outcome A) → ((a : A) × (o ≡ returns a)) ⊎ (o ≡ panics) ⊎ (o ≡ running)
Outcome-cases (returns a) = inl (a, refl)
Outcome-cases panics = inr (inl refl)
Outcome-cases running = inr (inr refl)

-- Inversion of a bind that returns.
pub >>=-eq-returns :
    {A B : Type 0} (m : Outcome A) (f : A → Outcome B) {b : B}
    → (m >>= f) ≡ returns b
    → (a : A) × (m ≡ returns a) × (f a ≡ returns b)
>>=-eq-returns (returns a) f h = (a, refl, h)
>>=-eq-returns panics f h = cc
>>=-eq-returns running f h = cc

-- `P` holds of what is returned, if the body returns; `Ends` says that it does return.
abbrev pub Holds {ℓ} : {A : Type 0} → (A → Type ℓ) → Outcome A → Type ℓ
Holds P (returns a) = P a
Holds P panics = Unit
Holds P running = Unit

abbrev pub Ends : {A : Type 0} → Outcome A → Type 0
Ends (returns a) = Unit
Ends panics = ⊥
Ends running = ⊥

pub Holds-mono {ℓ κ} :
    {A : Type 0} {P : A → Type ℓ} {Q : A → Type κ} (o : Outcome A)
    → ((a : A) → P a → Q a)
    → Holds P o
    → Holds Q o
Holds-mono (returns a) f h = f a h
Holds-mono panics f h = tt
Holds-mono running f h = tt

pub Holds-returns {ℓ} :
    {A : Type 0} (P : A → Type ℓ) {o : Outcome A} {a : A} → o ≡ returns a → Holds P o → P a
Holds-returns P e h = rw e at h

pub Ends-value : {A : Type 0} (o : Outcome A) → Ends o → (a : A) × (o ≡ returns a)
Ends-value (returns a) h = (a, refl)
Ends-value panics h = absurd h
Ends-value running h = absurd h

-- What is bound holds `P` if every continuation of a returned value does.
pub Holds-bind {ℓ} :
    {A B : Type 0} (P : B → Type ℓ) (m : Outcome A) (f : A → Outcome B)
    → ((a : A) → m ≡ returns a → Holds P (f a))
    → Holds P (m >>= f)
Holds-bind P (returns a) f h = h a refl
Holds-bind P panics f h = tt
Holds-bind P running f h = tt

-- What every returned value satisfies.
pub Holds-all {ℓ} :
    {A : Type 0} {P : A → Type ℓ} (o : Outcome A) → ((a : A) → o ≡ returns a → P a) → Holds P o
Holds-all (returns a) f = f a refl
Holds-all panics f = tt
Holds-all running f = tt
