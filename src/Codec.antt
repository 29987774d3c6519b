-- ===== src/Codec.antt =====
-- Protocol buffers, which are not this repository's code: a parameter for each message type.
use s2c_rs.Base.{ℕ, ◌≡◌, ◌++◌, Option, some, Result, ok, Bytes, length}

-- `encode_to_vec`, `encoded_len`, `encode` into a growable buffer, and `decode`, whose error is the
-- text of the decoder's.
pub record Codec (M : Type 0) : Type 0 where
  pub encode : M → Bytes
  pub encoded_len : M → ℕ
  pub encode_into : M → Bytes → Option Bytes
  pub decode : Bytes → Result M Bytes

-- What prost documents: a message is read back, and `encode` appends to the buffer.
pub record CodecLaws {M : Type 0} (C : Codec M) : Type 0 where
  pub decode-encode : (m : M) → C.decode (C.encode m) ≡ ok m
  pub len_exact : (m : M) → C.encoded_len m ≡ length (C.encode m)
  pub appends : (m : M) (buf : Bytes) → C.encode_into m buf ≡ some (buf ++ C.encode m)
