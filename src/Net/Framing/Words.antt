-- ===== src/Net/Framing/Words.antt =====
-- The length prefix.
use s2c_rs.Base.{ℕ, ◌+◌, ◌*◌, ◌/◌, ◌%◌, ◌^◌, ◌≡◌, ap, ◌++◌, some, Bytes, IsU32, arith}
use s2c_rs.Net.Framing.{be32, read_u32}

pub read_u32-be32 : (n : ℕ) (rest : Bytes) → IsU32 n → read_u32 (be32 n ++ rest) ≡ some (n, rest)
unfolding read_u32 be32
read_u32-be32 n rest h =
    let e : ((n / 2 ^ 24 * 256 + n / 2 ^ 16 % 256) * 256 + n / 2 ^ 8 % 256) * 256 + n % 256 ≡ n =
      omega arith in
    ap (λ k. some (k, rest)) e
