-- ===== src/Examples/Frames.antt =====
-- Frames on the wire.
use s2c_rs.Base.{
  zero, suc, ◌≡◌, List, [], ◌∷◌, ◌++◌, map, none, some, Bytes, codes, Result, ok, err, arith,
  length, replicate,
}
use s2c_rs.Codec.{Codec}
use s2c_rs.Proto.{S2cMessage, not_leader_error, follow_response}
use s2c_rs.Net.Framing.{Reader, be32, read_next_message}
use s2c_rs.Net.Framing
use s2c_rs.Net.Framing.Stream.{verdict, frames, read_all, read_all-frames}

-- A message is its correlation id, behind a one.
abbrev plain_decode : Bytes → Result S2cMessage Bytes
plain_decode [] = err []
plain_decode (zero ∷ s) = err s
plain_decode (suc n ∷ id) = ok (record { correlation_id = id; body = none; error = none })

abbrev pub plain : Codec S2cMessage
plain = record {
  encode = λ m. 1 ∷ m.correlation_id;
  encoded_len = λ m. length (1 ∷ m.correlation_id);
  encode_into = λ m buf. some (buf ++ (1 ∷ m.correlation_id));
  decode = plain_decode;
}

abbrev pub small_reader : Reader
small_reader = record { max_message_size = 4; buf = replicate 2 0 }

-- One that is read, one that is too large, one that does not decode, and one that is read.
abbrev pub payloads : List Bytes
payloads = (1 ∷ 5 ∷ []) ∷ (1 ∷ 2 ∷ 3 ∷ 4 ∷ 5 ∷ []) ∷ (0 ∷ []) ∷ (1 ∷ 6 ∷ []) ∷ []

read_all-frames_example :
    read_all (codes "eof") plain 4 small_reader (frames payloads ++ (0 ∷ []))
    ≡ map (verdict plain 4) payloads
read_all-frames_example =
    read_all-frames (codes "eof") plain payloads small_reader (0 ∷ [])
      (omega arith, (omega arith, (omega arith, (omega arith, tt))))

abbrev pub turned_down : S2cMessage
turned_down = record { correlation_id = codes "7"; body = none; error = some not_leader_error }

abbrev pub agreement : S2cMessage
agreement = record { correlation_id = codes "8"; body = some follow_response; error = none }

abbrev large_reader : Reader
large_reader = Framing.new 512000
