-- ===== src/Net/Framing.antt =====
-- src/network/message_rw.rs: a message on the wire is its length as a big-endian u32 and then its
-- encoding. The reader sees the bytes that arrive before the connection ends; `eof` is the text of
-- the error that then comes.
pub mod Words
pub mod Stream
pub mod Cut
pub mod Injected
use s2c_rs.Base.{
  ℕ, ◌+◌, ◌-◌, ◌*◌, ◌/◌, ◌%◌, ◌^◌, List, [], ◌∷◌, ◌++◌, Option, none, some, Bytes, Result, ok, err,
  length, take, drop, replicate, ltb, if◌then◌else◌,
}
use s2c_rs.Codec.{Codec}
use s2c_rs.Net.Error.{NetworkError, io, message_too_large, invalid_protobuf}
use s2c_rs.Proto.{S2cMessage}

-- `write_u32`, of a value below 2 ^ 32.
unfoldable pub be32 : ℕ → Bytes
be32 n = n / 2 ^ 24 ∷ n / 2 ^ 16 % 256 ∷ n / 2 ^ 8 % 256 ∷ n % 256 ∷ []

unfoldable pub read_u32 : Bytes → Option (ℕ × Bytes)
read_u32 (a ∷ b ∷ c ∷ d ∷ rest) = some (((a * 256 + b) * 256 + c) * 256 + d, rest)
read_u32 (a ∷ b ∷ c ∷ []) = none
read_u32 (a ∷ b ∷ []) = none
read_u32 (a ∷ []) = none
read_u32 [] = none

-- What `write_bytes` hands to the writer: `payload.len() as u32` wraps.
unfoldable pub frame : Bytes → Bytes
frame payload = be32 (length payload % 2 ^ 32) ++ payload

pub record Reader : Type 0 where
  pub max_message_size : ℕ  -- u32
  pub buf : Bytes

unfoldable pub new : ℕ → Reader
new max_message_size = record { max_message_size = max_message_size; buf = replicate 1024 0 }

-- `buf.resize(size, 0)` where the buffer is shorter.
unfoldable pub grown : Bytes → ℕ → Bytes
grown buf size = if ltb (length buf) size then buf ++ replicate (size - length buf) 0 else buf

-- What a read leaves: its result, the reader, and what has not been read.
pub record Fetch : Type 0 where
  pub result : Result S2cMessage NetworkError
  pub reader : Reader
  pub rest : Bytes

unfoldable pub decoded : Codec S2cMessage → Bytes → Result S2cMessage NetworkError
decoded C bytes = elim (C.decode bytes) [ ok m ↦ ok m | err e ↦ err (invalid_protobuf e) ]

module _ (eof : Bytes) (C : Codec S2cMessage) where
  -- `read_exact` into the first `size` bytes of the buffer, and `decode` of these.
  unfoldable pub read_body : Reader → ℕ → Bytes → Fetch
  read_body r size arriving =
      let buf = grown r.buf size in
      if ltb (length arriving) size
      then record { result = err (io eof); reader = record r { buf = buf }; rest = [] }
      else let filled = take size arriving ++ drop size buf in
        record {
          result = decoded C (take size filled);
          reader = record r { buf = filled };
          rest = drop size arriving;
        }

  unfoldable pub read_sized : Reader → ℕ → Bytes → Fetch
  read_sized r size arriving =
      if ltb r.max_message_size size
      then record {
        result = err (message_too_large r.max_message_size size);
        reader = r;
        rest = drop size arriving;
      }
      else read_body r size arriving

  unfoldable pub read_next_message : Reader → Bytes → Fetch
  read_next_message r arriving = elim (read_u32 arriving) [
    | none ↦ record { result = err (io eof); reader = r; rest = [] }
    | some (size, rest) ↦ read_sized r size rest
  ]
