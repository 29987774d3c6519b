-- ===== src/Paths/Order.antt =====
-- The byte order of keys against the order of indices.
use native.Mathlib.Nat.{one-le-pow}
use s2c_rs.Base.{
  ℕ, zero, suc, ◌+◌, ◌-◌, ◌/◌, ◌%◌, ◌^◌, ◌≤◌, ◌<◌, ◌≡◌, refl, ◌∙◌, Bool, true, false, [], ◌∷◌, ◌++◌,
  arith, Bytes, u64_max, ltb, ◌==◌, if◌then◌else◌,
}
use s2c_rs.Paths.{KeysResolver, log_entry, invert}
use s2c_rs.Paths.Decimal.{digits, decimal}

-- The byte order of strings, in which object stores list keys.
unfoldable pub lex_lt : Bytes → Bytes → Bool
lex_lt [] [] = false
lex_lt [] (d ∷ t) = true
lex_lt (c ∷ s) [] = false
lex_lt (c ∷ s) (d ∷ t) = let rest = lex_lt s t in if c == d then rest else ltb c d

pub lex_lt-append : (p s t : Bytes) → lex_lt (p ++ s) (p ++ t) ≡ lex_lt s t
unfolding lex_lt
lex_lt-append [] s t = refl
lex_lt-append (c ∷ p) s t = ground (arith, lex_lt-append p s t)

digits-large :
    (f n : ℕ) (s : Bytes) → 10 ≤ n → digits (suc f) n s ≡ digits f (n / 10) ((b'0' + n % 10) ∷ s)
unfolding digits
digits-large f n s h = ground arith

-- Numbers with as many digits compare as their prints do.
lex_lt-digits :
    (k f n m : ℕ) (s t : Bytes)
    → k < f
    → 10 ^ k ≤ n
    → n < 10 ^ suc k
    → 10 ^ k ≤ m
    → m < 10 ^ suc k
    → lex_lt (digits f n s) (digits f m t) ≡ (if n == m then lex_lt s t else ltb n m)
unfolding lex_lt digits
lex_lt-digits k zero n m s t hf hn hn' hm hm' = absurd (omega arith)
lex_lt-digits zero (suc f) n m s t hf hn hn' hm hm' = ground arith
lex_lt-digits (suc k) (suc f) n m s t hf hn hn' hm hm' =
    let p : 1 ≤ 10 ^ k = one-le-pow k 10 (omega arith) in
    rw (digits-large f n s (omega arith), digits-large f m t (omega arith))
      (ground (
        arith,
        lex_lt-digits k f (n / 10) (m / 10) ((b'0' + n % 10) ∷ s) ((b'0' + m % 10) ∷ t)
            (omega arith) (omega arith) (omega arith) (omega arith) (omega arith),
      ))

-- Up to this index every inverted index has twenty digits.
abbrev pub max_ordered_index : ℕ
max_ordered_index = 8_446_744_073_709_551_615

-- For indices up to 8446744073709551615, the keys of two log entries compare in byte order as
-- their indices do, the other way round.
pub log_entry_newest_first :
    (keys : KeysResolver) (i j : ℕ)
    → i ≤ max_ordered_index
    → j ≤ max_ordered_index
    → lex_lt (log_entry keys (invert j)) (log_entry keys (invert i)) ≡ ltb i j
unfolding log_entry invert decimal
log_entry_newest_first keys i j hi hj =
    lex_lt-append keys.log_prefix _ _
    ∙ lex_lt-digits 19 20 (u64_max - j) (u64_max - i) [] [] (omega arith) (omega arith)
        (omega arith) (omega arith) (omega arith)
    ∙ unfold lex_lt in ground arith
