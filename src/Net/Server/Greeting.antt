-- ===== src/Net/Server/Greeting.antt =====
-- What a connection is answered on its handshake.
use s2c_rs.Base.{
  suc, ◌≤◌, ◌≡◌, refl, ap, ap₂, ◌∙◌, true, false, List, [], ◌∷◌, ◌++◌, map, append_assoc, none,
  some, Bytes, ok, All, IsU32, length, replicate, arith,
}
use s2c_rs.Codec.{Codec, CodecLaws}
use s2c_rs.Proto.{S2cMessage, Handshake}
use s2c_rs.Net.Framing.{Reader, frame, read_next_message}
use s2c_rs.Net.Framing.Stream.{frames, read_next_message-frame, verdict-encode}
use s2c_rs.Net.Server.{Try, Greeted, handshake_of, write_back, reply, tried, shake}

abbrev pub good : Try
good = record { in_time = true; write_ok = true }

module _ (eof : Bytes) (C : Codec S2cMessage) (L : CodecLaws C) where
  -- What is read where an encoded message arrives.
  pub read_encoded :
      (r : Reader) (m : S2cMessage) (rest : Bytes)
      → IsU32 r.max_message_size
      → length (C.encode m) ≤ r.max_message_size
      → let f = read_next_message eof C r (frame (C.encode m) ++ rest) in
        (f.result ≡ ok m) × (f.reader.max_message_size ≡ r.max_message_size) × (f.rest ≡ rest)
  read_encoded r m rest u h =
      let (verdict_m, same, left) =
        read_next_message-frame eof C r (C.encode m) rest (omega arith) in
      (verdict_m ∙ verdict-encode eof C L r.max_message_size m h, same, left)

  tried-handshake :
      (m : S2cMessage) (h : Handshake) (later : Greeted)
      → handshake_of m.body ≡ some h
      → tried C true (ok m) later
        ≡ record { result = some h; written = frame (C.encode m); ended = true }
  unfolding tried reply write_back
  tried-handshake m h later e = rw (e, reply) refl

  tried-other :
      (m : S2cMessage) (later : Greeted)
      → handshake_of m.body ≡ none
      → tried C true (ok m) later ≡ later
  unfolding tried reply
  tried-other m later e = rw (e, reply) refl

  -- If messages that are no handshakes arrive, then a handshake and anything behind it, none
  -- longer than the limit of the reader, a u32, and every read is in time and the write succeeds,
  -- then the server skips the messages, accepts the handshake and writes back the frame that it
  -- came in.
  pub shake_lem :
      (ms : List S2cMessage) (m : S2cMessage) (h : Handshake) (r : Reader) (rest : Bytes)
      → IsU32 r.max_message_size
      → All (λ x. length (C.encode x) ≤ r.max_message_size) ms
      → All (λ x. handshake_of x.body ≡ none) ms
      → length (C.encode m) ≤ r.max_message_size
      → handshake_of m.body ≡ some h
      → shake eof C r
          (replicate (suc (length ms)) good)
          (frames (map C.encode ms) ++ (frame (C.encode m) ++ rest))
        ≡ record { result = some h; written = frame (C.encode m); ended = true }
  unfolding shake
  shake_lem [] m h r rest u fits others fit e =
      let (result, same, left) = read_encoded r m rest u fit in
      ap (λ x. tried C true x (record { result = none; written = []; ended = false })) result
      ∙ tried-handshake m h _ e
  shake_lem (x ∷ xs) m h r rest u fits others fit e =
      let more = frames (map C.encode xs) ++ (frame (C.encode m) ++ rest) in
      let f = read_next_message eof C r (frame (C.encode x) ++ more) in
      let (result, same, left) = read_encoded r x more u fits.0 in
      let ih =
        shake_lem xs m h f.reader rest (rw same u) (rw same fits.1) others.1 (rw same fit) e in
      rw append_assoc (ap₂ (tried C true) result (rw left ih) ∙ tried-other x _ others.0)
