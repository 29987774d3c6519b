-- ===== src/Paths/Decimal.antt =====
-- The decimal print of a u64 and `str::parse::<u64>`, as src/paths.rs and src/log.rs use them.
use s2c_rs.Base.{
  ℕ, zero, suc, ◌+◌, ◌-◌, ◌*◌, ◌/◌, ◌%◌, ◌^◌, ◌≤◌, ◌<◌, ◌≡◌, refl, sym, ap, ◌∙◌, ◌≢◌, ◌||◌, Option,
  none, some, [], ◌∷◌, arith, Bytes, IsU64, u64_max, ltb, ◌==◌, if◌then◌else◌, Bool-cases, inl, inr,
}

-- The digits of `n` in front of `rest`; the fuel bounds their number.
unfoldable pub digits : ℕ → ℕ → Bytes → Bytes
digits zero n rest = rest
digits (suc f) n rest =
    let more = digits f (n / 10) ((b'0' + n % 10) ∷ rest) in
    if ltb n 10 then (b'0' + n) ∷ rest else more

-- A u64 has 20 digits at most.
unfoldable pub decimal : ℕ → Bytes
decimal n = digits 20 n []

-- The value that digits spell behind `n`; `none` at another character or past `u64::MAX`.
unfoldable pub scan : Bytes → ℕ → Option ℕ
scan [] n = some n
scan (c ∷ s) n =
    let rest = scan s (n * 10 + (c - b'0')) in
    if ltb c b'0' || ltb b'9' c || ltb u64_max (n * 10 + (c - b'0')) then none else rest

-- A leading `+` is taken where digits follow.
unfoldable pub parse_u64 : Bytes → Option ℕ
unfolding scan
parse_u64 [] = none
parse_u64 (c ∷ []) = scan (c ∷ []) 0
parse_u64 (c ∷ d ∷ s) = if c == b'+' then scan (d ∷ s) 0 else scan (c ∷ d ∷ s) 0

scan-digits :
    (f n : ℕ) (rest : Bytes)
    → n < 10 ^ suc f
    → n ≤ u64_max
    → scan (digits (suc f) n rest) 0 ≡ scan rest n
unfolding digits scan
scan-digits zero n rest h fits = ground arith
scan-digits (suc f) n rest h fits = elim (Bool-cases (ltb n 10)) [
  | inl small ↦ ground arith
  | inr large ↦ ground (arith, scan-digits f (n / 10) ((b'0' + n % 10) ∷ rest) (omega arith))
]

abbrev IsDigit : ℕ → Type 0
IsDigit c = (b'0' ≤ c) × (c ≤ b'9')

digits-cons :
    (f n : ℕ) (rest : Bytes) → (c : ℕ) × (s : Bytes) × (digits (suc f) n rest ≡ c ∷ s) × IsDigit c
unfolding digits
digits-cons zero n rest = elim (Bool-cases (ltb n 10)) [
  | inl small ↦ (b'0' + n, rest, ground arith, ground arith)
  | inr large ↦ (b'0' + n % 10, rest, ground arith, ground arith)
]
digits-cons (suc f) n rest = elim (Bool-cases (ltb n 10)) [
  | inl small ↦ (b'0' + n, rest, ground arith, ground arith)
  | inr large ↦
      let (c, s, e, d) = digits-cons f (n / 10) ((b'0' + n % 10) ∷ rest) in
      (c, s, ground (arith, e), d)
]

parse_u64-scan : (c : ℕ) (s : Bytes) → c ≢ b'+' → parse_u64 (c ∷ s) ≡ scan (c ∷ s) 0
unfolding parse_u64
parse_u64-scan c [] h = refl
parse_u64-scan c (d ∷ s) h = ground arith

-- Every u64 is read back from its print.
pub parse_u64-decimal : (n : ℕ) → IsU64 n → parse_u64 (decimal n) ≡ some n
unfolding decimal
parse_u64-decimal n h =
    let (c, s, e, d) = digits-cons 19 n [] in
    ap parse_u64 e
    ∙ parse_u64-scan c s (λ p. omega arith)
    ∙ ap (λ t. scan t 0) (sym e)
    ∙ scan-digits 19 n [] (omega arith) (omega arith)
    ∙ unfold scan in refl
