-- ===== src/Net/Wire/Disconnect.antt =====
-- A message of the group server at a client.
use s2c_rs.Base.{
  ℕ, ◌*◌, ◌+◌, ◌≤◌, ◌<◌, ◌≡◌, refl, ap, ◌∙◌, Bool, Bool-cases, inl, inr, List, [], ◌∷◌, ◌++◌, map,
  Bytes, err, IsU32, arith, length, length-append, length-replicate, replicate, ltb,
}
use s2c_rs.Codec.{Codec, CodecLaws}
use s2c_rs.Config.{S2cOptions}
use s2c_rs.Context.{Context}
use s2c_rs.Proto.{S2cMessage, S2cMessageEnvelope}
use s2c_rs.Net.Error.{NetworkError, message_too_large, invalid_protobuf}
use s2c_rs.Net.Error
use s2c_rs.Net.Framing.{read_next_message, decoded, frame}
use s2c_rs.Net.Framing
use s2c_rs.Net.Framing.Stream.{verdict, frames, read_next_message-frame}
use s2c_rs.Net.Framing.Cut.{append-front, length-frame}
use s2c_rs.Net.Inflight.{waiting}
use s2c_rs.Net.Client.{ClientState, not_connected, queued, returned, Client}
use s2c_rs.Net.Client
use s2c_rs.Net.Client.Calls.{settle_call}
use s2c_rs.Net.Client.Loops.{after_read, disconnect}
use s2c_rs.Net.Client.System.{Reach}
use s2c_rs.Net.Client.Failures.{failed_read_reaches}
use s2c_rs.Net.Group.{drain_out, DrainOut}
use s2c_rs.Net.Group.Delivery.{sending, zero_padded, drain_out-frames}

-- A field's number is never zero: no encoding begins with a zero byte.
abbrev pub RejectsZero : Codec S2cMessage → Type 0
RejectsZero C = (s : Bytes) → (e : Bytes) × (C.decode (0 ∷ s) ≡ err e)

-- Zeros in front of bytes that are not none begin with a zero.
zeros_lead :
    (bytes : Bytes) → 0 < length bytes → (s : Bytes) × (replicate (length bytes) 0 ++ bytes ≡ 0 ∷ s)
zeros_lead [] h = absurd (omega (arith, h))
zeros_lead (b ∷ bytes) h = (replicate (length bytes) 0 ++ (b ∷ bytes), refl)

module _ (C : Codec S2cMessage) (L : CodecLaws C) (Z : RejectsZero C) where
  zero_padded_fails :
      (x : S2cMessageEnvelope) (max : ℕ)
      → 0 < length (C.encode x.s2c_message)
      → (e : NetworkError) × (verdict C max (zero_padded C x) ≡ err e)
  unfolding decoded
  zero_padded_fails x max h =
      let (s, lead) = zeros_lead (C.encode x.s2c_message) h in
      let (e, fails) = Z s in
      let size = length (zero_padded C x) in
      elim (Bool-cases (ltb max size)) [
        | inl y ↦ (message_too_large max size, rw y refl)
        | inr y ↦ (invalid_protobuf e, rw (y, lead, fails, decoded) refl)
      ]

  -- If the decoder rejects what begins with a zero byte, and of what a group server hands to the
  -- writer of a client, from an empty buffer, with the server running and every write succeeding,
  -- at least the frame of the first message has arrived, then for a client in any state that a
  -- new client can reach this frame is an error to its reader, provided that the encoding of the
  -- message is not empty and its length doubled is a u32; a call whose payload is queued and
  -- whose channel waits then returns that error, and the client ends up `NotConnected`.
  pub first_message_disconnects :
      (runs : Bool → Bool) (eof : Bytes) (o : S2cOptions) (context : Context) (c : Client) (k : ℕ)
      (id : Bytes) (i : ℕ) (r : Framing.Reader) (x : S2cMessageEnvelope)
      (xs : List S2cMessageEnvelope) (arrived held : Bytes)
      → Reach runs C (Client.new o context) c
      → c.calls k ≡ queued id i
      → c.inflight_requests.slots i ≡ waiting
      → 0 < length (C.encode x.s2c_message)
      → IsU32 (2 * length (C.encode x.s2c_message))
      → arrived ++ held ≡ (drain_out C [] (map sending (x ∷ xs))).written
      → 4 + 2 * length (C.encode x.s2c_message) ≤ length arrived
      → let f = read_next_message eof C r arrived in
        let d = after_read f.result c in
        (e : NetworkError) × (f.result ≡ err e)
        × ((settle_call k id (d.inflight_requests.slots i) d).calls k
            ≡ returned id (err (Error.ClientError.io e)))
        × ((disconnect d).client_state ≡ not_connected)
  unfolding disconnect
  first_message_disconnects runs eof o context c k id i r x xs arrived held reach call waits full
        fits stream whole =
      let p = zero_padded C x in
      let n = length (C.encode x.s2c_message) in
      let zeros : Bytes = replicate n 0 in
      let size : length p ≡ 2 * n =
        omega (arith, length-append zeros (C.encode x.s2c_message), length-replicate {A = ℕ} n 0) in
      let u : IsU32 (length p) = omega (arith, size) in
      let long : length (frame p) ≤ length arrived = omega (arith, length-frame p, size) in
      let (rest, begins, later) =
        append-front arrived held (frame p) (frames (map (zero_padded C) xs))
          (stream ∙ ap (λ (d : DrainOut). d.written) (drain_out-frames C L (x ∷ xs))) long in
      let (result, same, left) = read_next_message-frame eof C r p rest u in
      let (e, fails) = zero_padded_fails x r.max_message_size full in
      let answer = failed_read_reaches runs C o context c k id i e reach call waits in
      rw (begins, result, fails) (e, refl, answer, refl)
