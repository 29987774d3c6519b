-- ===== src/Net/Group/Delivery.antt =====
-- What the loops of the group server hand on.
use s2c_rs.Base.{
  arith, ℕ, zero, suc, ◌-◌, ◌≡◌, refl, ap, ap₂, sym, append_assoc, ◌∙◌, List, [], ◌∷◌, ◌++◌, map,
  none, some, true, false, Bytes, Result, ok, err, All, IsU32, length, replicate, eq_bytes_refl,
}
use s2c_rs.Codec.{Codec, CodecLaws}
use s2c_rs.Proto.{NodeIdentity, S2cMessage, S2cMessageEnvelope}
use s2c_rs.Net.Error.{NetworkError}
use s2c_rs.Net.Framing.{Reader, frame, read_next_message}
use s2c_rs.Net.Framing.Stream.{verdict, frames, read_next_message-frame}
use s2c_rs.Net.Group.{
  is_node, has_node, GroupServer, handle_client, ReadLoop, handed_on, start_read_loop, Sending,
  DrainOut, resized, drain_out,
}

pub is_node_refl : (n : NodeIdentity) → is_node n n ≡ true
unfolding is_node
is_node_refl n = ground (arith, eq_bytes_refl n.id, eq_bytes_refl n.address, eq_bytes_refl n.az)

abbrev pub for_node : NodeIdentity → S2cMessage → S2cMessageEnvelope
for_node n m = record { s2c_message = m; node_identity = n }

-- After `handle_client` for a node, another call for the same node spawns no loops and changes
-- nothing.
pub handle_client_again :
    (n : NodeIdentity) (g : GroupServer)
    → let now = (handle_client n g).1 in handle_client n now ≡ (false, now)
unfolding handle_client has_node
handle_client_again n g = ground (arith, is_node_refl n)

abbrev pub sending : S2cMessageEnvelope → Sending
sending x = record { running = true; message = some x; failed = none }

-- The payload that is written for a message.
abbrev pub zero_padded : Codec S2cMessage → S2cMessageEnvelope → Bytes
zero_padded C x = replicate (length (C.encode x.s2c_message)) 0 ++ C.encode x.s2c_message

resized_empty : (n : ℕ) → resized [] n ≡ replicate n 0
unfolding resized
resized_empty zero = refl
resized_empty (suc n) = let e : suc n - 0 ≡ suc n = omega arith in ap (λ k. replicate k 0) e

-- From an empty buffer, with the server running and every write succeeding, `drain_out` writes
-- one frame for each message, in order, whose payload is as many zeros as the encoding is long
-- and then the encoding.
pub drain_out-frames :
    (C : Codec S2cMessage) (L : CodecLaws C) (xs : List S2cMessageEnvelope)
    → drain_out C [] (map sending xs)
      ≡ record { written = frames (map (zero_padded C) xs); cancelled = false }
unfolding drain_out
drain_out-frames C L [] = refl
drain_out-frames C L (x ∷ xs) =
    let m = x.s2c_message in
    let e : C.encode_into m (resized [] (C.encoded_len m)) ≡ some (zero_padded C x) =
      rw (resized_empty (C.encoded_len m), L.len_exact m)
        (L.appends m (replicate (length (C.encode m)) 0)) in
    let ih = drain_out-frames C L xs in
    rw (e, drain_out)
      (ap (λ (d : DrainOut). record d { written = frame (zero_padded C x) ++ d.written }) ih)

-- The results up to the first error, and whether there is one.
abbrev pub until_error : NodeIdentity → List (Result S2cMessage NetworkError) → ReadLoop
until_error n [] = record { forwarded = []; cancelled = false; ended = false }
until_error n (ok m ∷ rs) =
    let later = until_error n rs in record later { forwarded = for_node n m ∷ later.forwarded }
until_error n (err e ∷ rs) = record { forwarded = []; cancelled = true; ended = true }

until_error-step :
    (n : NodeIdentity) (v : Result S2cMessage NetworkError)
    (vs : List (Result S2cMessage NetworkError))
    → until_error n (v ∷ vs) ≡ handed_on n true v (until_error n vs)
unfolding handed_on
until_error-step n (ok m) vs = refl
until_error-step n (err e) vs = refl

module _ (eof : Bytes) (C : Codec S2cMessage) where
  -- While the group server runs, a read loop over as many rounds as there are frames, each
  -- shorter than 2 ^ 32 bytes, forwards in order and under its node the messages in front of the
  -- first frame that is too large or does not decode; at that frame it ends and cancels the
  -- group.
  pub read_loop-frames :
      (ps : List Bytes) (r : Reader) (n : NodeIdentity) (rest : Bytes)
      → All (λ p. IsU32 (length p)) ps
      → start_read_loop eof C r n (map (λ p. (true, true)) ps) (frames ps ++ rest)
        ≡ until_error n (map (verdict C r.max_message_size) ps)
  unfolding start_read_loop
  read_loop-frames [] r n rest h = refl
  read_loop-frames (p ∷ ps) r n rest h =
      let (verdict_p, same, left) = read_next_message-frame eof C r p (frames ps ++ rest) h.0 in
      let f = read_next_message eof C r (frame p ++ (frames ps ++ rest)) in
      let later = read_loop-frames ps f.reader n rest h.1 in
      rw append_assoc (
        ap₂ (handed_on n true) verdict_p (rw left (rw same at later))
        ∙ sym (
            until_error-step n (verdict C r.max_message_size p)
              (map (verdict C r.max_message_size) ps)))
