-- ===== src/Examples/Names.antt =====
-- The names of the entries of the example log in memory.
use s2c_rs.Base.{
  ℕ, zero, suc, ◌+◌, ◌/◌, ◌%◌, ◌≡◌, sym, ap, ◌≢◌, [], ◌∷◌, ◌++◌, append-nil, append_assoc, some,
  Bytes, All, arith, ltb, Bool-cases, inl, inr,
}
use s2c_rs.Paths.{log_entry}
use s2c_rs.Paths
use s2c_rs.Paths.Decimal.{digits, decimal}
use s2c_rs.Log
use s2c_rs.Log.Head.{NamesEntries}
use s2c_rs.Examples.Memory.{memory, last_segment}
use s2c_rs.Examples.Nodes.{group_log}

abbrev NoSlash : Bytes → Type 0
NoSlash = All (λ c. c ≢ b'/')

last_segment-NoSlash : (seen s : Bytes) → NoSlash s → last_segment seen s ≡ seen ++ s
last_segment-NoSlash seen [] h = sym (append-nil seen)
last_segment-NoSlash seen (c ∷ s) h =
    ground (arith, h.0, last_segment-NoSlash (seen ++ (c ∷ [])) s h.1, append_assoc seen (c ∷ []) s)

digits-NoSlash : (f n : ℕ) (rest : Bytes) → NoSlash rest → NoSlash (digits f n rest)
unfolding digits
digits-NoSlash zero n rest h = h
digits-NoSlash (suc f) n rest h = elim (Bool-cases (ltb n 10)) [
  | inl e ↦ rw e ((λ k. omega arith), h)
  | inr e ↦ rw e (digits-NoSlash f (n / 10) ((b'0' + n % 10) ∷ rest) ((λ k. omega arith), h))
]

pub memory-NamesEntries : NamesEntries memory group_log
unfolding log_entry Paths.new Log.new decimal
memory-NamesEntries n = ap some (last_segment-NoSlash [] (decimal n) (digits-NoSlash 20 n [] tt))
