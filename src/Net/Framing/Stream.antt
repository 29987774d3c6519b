-- ===== src/Net/Framing/Stream.antt =====
-- Reading what was written, frame by frame.
use s2c_rs.Base.{
  ℕ, zero, suc, ◌%◌, ◌^◌, ◌≤◌, ◌<◌, ◌≡◌, refl, ap₂, false, ◌∙◌, List, [], ◌∷◌, ◌++◌, map,
  append_assoc, some, Bytes, Result, ok, err, length, drop, ltb, if◌then◌else◌, Bool-cases, inl,
  inr, IsU32, All, arith, take-append, drop-append, length-append,
}
use s2c_rs.Codec.{Codec, CodecLaws}
use s2c_rs.Net.Error.{NetworkError, io, message_too_large}
use s2c_rs.Proto.{S2cMessage}
use s2c_rs.Net.Framing.{
  Reader, be32, read_u32, frame, grown, decoded, read_body, read_sized, read_next_message,
}
use s2c_rs.Net.Framing.Words.{read_u32-be32}

-- What a reader makes of a payload: the size is tested, then it is decoded.
abbrev pub verdict : Codec S2cMessage → ℕ → Bytes → Result S2cMessage NetworkError
verdict C max payload =
    if ltb max (length payload)
    then err (message_too_large max (length payload))
    else decoded C payload

abbrev pub frames : List Bytes → Bytes
frames [] = []
frames (p ∷ ps) = frame p ++ frames ps

frame_header :
    (payload rest : Bytes)
    → IsU32 (length payload)
    → read_u32 (frame payload ++ rest) ≡ some (length payload, payload ++ rest)
unfolding frame
frame_header payload rest h =
    let e : length payload % 2 ^ 32 ≡ length payload = omega arith in
    rw (e, append_assoc (be32 (length payload)) payload rest)
      (read_u32-be32 (length payload) (payload ++ rest) h)

module _ (eof : Bytes) (C : Codec S2cMessage) where
  read_body_lem :
      (r : Reader) (payload rest : Bytes)
      → let f = read_body eof C r (length payload) (payload ++ rest) in
        (f.result ≡ decoded C payload)
        × (f.reader.max_message_size ≡ r.max_message_size)
        × (f.rest ≡ rest)
  unfolding read_body
  read_body_lem r payload rest =
      let n = length payload in
      let x : ltb (length (payload ++ rest)) n ≡ false =
        ground (arith, length-append payload rest) in
      rw (x, take-append payload rest, take-append payload (drop n (grown r.buf n)))
        (refl, refl, drop-append payload rest)

  read_sized_lem :
      (r : Reader) (payload rest : Bytes)
      → let f = read_sized eof C r (length payload) (payload ++ rest) in
        (f.result ≡ verdict C r.max_message_size payload)
        × (f.reader.max_message_size ≡ r.max_message_size)
        × (f.rest ≡ rest)
  unfolding read_sized
  read_sized_lem r payload rest = elim (Bool-cases (ltb r.max_message_size (length payload))) [
    | inl x ↦ rw x (refl, refl, drop-append payload rest)
    | inr x ↦ rw x (read_body_lem r payload rest)
  ]

  read_next_message_lem :
      (r : Reader) (payload rest : Bytes)
      → IsU32 (length payload)
      → read_next_message eof C r (frame payload ++ rest)
        ≡ read_sized eof C r (length payload) (payload ++ rest)
  unfolding read_next_message
  read_next_message_lem r payload rest h = rw (frame_header payload rest h, read_next_message)

  -- One read takes one frame, whatever the verdict on it and whatever the buffer held.
  pub read_next_message-frame :
      (r : Reader) (payload rest : Bytes)
      → IsU32 (length payload)
      → let f = read_next_message eof C r (frame payload ++ rest) in
        (f.result ≡ verdict C r.max_message_size payload)
        × (f.reader.max_message_size ≡ r.max_message_size)
        × (f.rest ≡ rest)
  read_next_message-frame r payload rest h =
      rw (read_next_message_lem r payload rest h) (read_sized_lem r payload rest)

  -- `n` reads in a row.
  unfoldable pub read_all : ℕ → Reader → Bytes → List (Result S2cMessage NetworkError)
  read_all zero r arriving = []
  read_all (suc n) r arriving =
      let f = read_next_message eof C r arriving in f.result ∷ read_all n f.reader f.rest

  -- Reading as many messages as there are frames, each shorter than 2 ^ 32 bytes, gives for each
  -- frame in order its size error, its decoding error or its message: a frame that is too large
  -- or does not decode costs its own result only, whatever the buffer held.
  pub read_all-frames :
      (ps : List Bytes) (r : Reader) (rest : Bytes)
      → All (λ p. IsU32 (length p)) ps
      → read_all (length ps) r (frames ps ++ rest) ≡ map (verdict C r.max_message_size) ps
  unfolding read_all
  read_all-frames [] r rest h = refl
  read_all-frames (p ∷ ps) r rest h =
      let (verdict_p, same, left) = read_next_message-frame r p (frames ps ++ rest) h.0 in
      let f = read_next_message eof C r (frame p ++ (frames ps ++ rest)) in
      let later = read_all-frames ps f.reader rest h.1 in
      rw append_assoc (ap₂ ◌∷◌ verdict_p (rw left (rw same at later)))

  -- If the announced size of a frame is a u32 within the limit and fewer bytes follow before the
  -- connection ends, the read gives the end-of-file error.
  pub read_next_message_cut :
      (r : Reader) (size : ℕ) (part : Bytes)
      → IsU32 size
      → size ≤ r.max_message_size
      → length part < size
      → (read_next_message eof C r (be32 size ++ part)).result ≡ err (io eof)
  unfolding read_next_message read_sized read_body
  read_next_message_cut r size part u h k = ground (arith, read_u32-be32 size part u)

  pub verdict-encode :
      (L : CodecLaws C) (max : ℕ) (m : S2cMessage)
      → length (C.encode m) ≤ max
      → verdict C max (C.encode m) ≡ ok m
  unfolding decoded
  verdict-encode L max m h = ground (arith, L.decode-encode m)

  pub verdicts-encode :
      (L : CodecLaws C) (max : ℕ) (ms : List S2cMessage)
      → All (λ m. length (C.encode m) ≤ max) ms
      → map (verdict C max) (map C.encode ms) ≡ map ok ms
  verdicts-encode L max [] h = refl
  verdicts-encode L max (m ∷ ms) h =
      ap₂ ◌∷◌ (verdict-encode L max m h.0) (verdicts-encode L max ms h.1)

  pub fits :
      (max : ℕ) (ms : List S2cMessage)
      → IsU32 max
      → All (λ m. length (C.encode m) ≤ max) ms
      → All (λ p. IsU32 (length p)) (map C.encode ms)
  fits max [] u h = tt
  fits max (m ∷ ms) u h = (omega (arith, h.0), fits max ms u h.1)

  -- If no encoding is longer than the limit of the reader, a u32, the messages that were written
  -- are read back in order.
  pub read_all-encode :
      (L : CodecLaws C) (ms : List S2cMessage) (r : Reader) (rest : Bytes)
      → IsU32 r.max_message_size
      → All (λ m. length (C.encode m) ≤ r.max_message_size) ms
      → read_all (length (map C.encode ms)) r (frames (map C.encode ms) ++ rest) ≡ map ok ms
  read_all-encode L ms r rest u h =
      read_all-frames (map C.encode ms) r rest (fits r.max_message_size ms u h)
      ∙ verdicts-encode L r.max_message_size ms h
