-- ===== src/Net/Framing/Cut.antt =====
-- Reading the beginning of what was written.
use s2c_rs.Base.{
  ℕ, suc, ◌%◌, ◌+◌, ◌^◌, ◌≤◌, ◌<◌, ◌≡◌, refl, ap, ap₂, ◌∙◌, List, [], ◌∷◌, ◌++◌, map, none, Bytes,
  err, length, ltb, Bool-cases, inl, inr, IsU32, All, arith, length-append,
}
use s2c_rs.Codec.{Codec}
use s2c_rs.Net.Error.{io}
use s2c_rs.Proto.{S2cMessage}
use s2c_rs.Net.Framing.{Reader, be32, read_u32, frame, read_next_message}
use s2c_rs.Net.Framing.Stream.{
  verdict, frames, read_next_message-frame, read_next_message_cut, read_all,
}

-- A list that is long enough begins with what it shares with another one.
pub append-front :
    (a h w t : Bytes)
    → a ++ h ≡ w ++ t
    → length w ≤ length a
    → (b : Bytes) × (a ≡ w ++ b) × (b ++ h ≡ t)
append-front a h [] t e l = (a, refl, e)
append-front [] h (y ∷ w) t e l = absurd (omega arith)
append-front (x ∷ a) h (y ∷ w) t e l =
    let l' : length w ≤ length a = omega arith in
    let e' : a ++ h ≡ w ++ t = cc in let (b, f, g) = append-front a h w t e' l' in (b, cc, g)

-- And one that is too short is a beginning.
append-short :
    (a h w t : Bytes) → a ++ h ≡ w ++ t → length a < length w → (b : Bytes) × (a ++ b ≡ w)
append-short [] h w t e l = (w, refl)
append-short (x ∷ a) h [] t e l = absurd (omega arith)
append-short (x ∷ a) h (y ∷ w) t e l =
    let l' : length a < length w = omega arith in
    let e' : a ++ h ≡ w ++ t = cc in let (b, f) = append-short a h w t e' l' in (b, cc)

header_cut : (a : Bytes) → length a < 4 → read_u32 a ≡ none
unfolding read_u32
header_cut [] l = refl
header_cut (x ∷ []) l = refl
header_cut (x ∷ y ∷ []) l = refl
header_cut (x ∷ y ∷ z ∷ []) l = refl
header_cut (x ∷ y ∷ z ∷ t ∷ a) l = absurd (omega arith)

length-be32 : (n : ℕ) → length (be32 n) ≡ 4
unfolding be32
length-be32 n = refl

pub length-frame : (p : Bytes) → length (frame p) ≡ 4 + length p
unfolding frame
length-frame p =
    length-append (be32 (length p % 2 ^ 32)) p
    ∙ ap (λ n. n + length p) (length-be32 (length p % 2 ^ 32))

module _ (eof : Bytes) (C : Codec S2cMessage) where
  -- A frame that has not arrived as a whole.
  frame_cut :
      (r : Reader) (p a b : Bytes)
      → IsU32 (length p)
      → length p ≤ r.max_message_size
      → a ++ b ≡ frame p
      → length a < length (frame p)
      → (read_next_message eof C r a).result ≡ err (io eof)
  unfolding read_next_message frame
  frame_cut r p a b u h e l = elim (Bool-cases (ltb (length a) 4)) [
    | inl x ↦ rw (header_cut a (ground arith), read_next_message) refl
    | inr x ↦
        let size : length p % 2 ^ 32 ≡ length p = omega arith in
        let long : length (be32 (length p % 2 ^ 32)) ≤ length a =
          rw (length-be32 (length p % 2 ^ 32)) (ground arith) in
        let (part, f, g) = append-front a b (be32 (length p % 2 ^ 32)) p e long in
        let less : length part < length p = omega (
          arith,
          ap length f,
          length-append (be32 (length p % 2 ^ 32)) part,
          length-append (be32 (length p % 2 ^ 32)) p,
        ) in
        rw (f, size) (read_next_message_cut eof C r (length p) part u h less)
  ]

  nothing_left : (r : Reader) → (read_next_message eof C r []).result ≡ err (io eof)
  unfolding read_next_message read_u32
  nothing_left r = refl

  -- Of the frames whose beginning has arrived, the whole ones are read, and then the connection has
  -- ended.
  pub read_all-cut :
      (ps : List Bytes) (r : Reader) (arrived held : Bytes)
      → IsU32 r.max_message_size
      → All (λ p. length p ≤ r.max_message_size) ps
      → arrived ++ held ≡ frames ps
      → (us : List Bytes) × (more : List Bytes) × (ps ≡ us ++ more)
        × (read_all eof C (suc (length us)) r arrived
            ≡ map (verdict C r.max_message_size) us ++ (err (io eof) ∷ []))
  unfolding read_all
  read_all-cut [] r [] held u h e = ([], [], refl, ap (λ v. v ∷ []) (nothing_left r))
  read_all-cut [] r (x ∷ a) held u h e = absurd cc
  read_all-cut (p ∷ ps) r arrived held u h e =
      elim (Bool-cases (ltb (length arrived) (length (frame p)))) [
        | inl x ↦
            let l : length arrived < length (frame p) = ground arith in
            let (b, f) = append-short arrived held (frame p) (frames ps) e l in
            (
              [],
              p ∷ ps,
              refl,
              ap (λ v. v ∷ []) (frame_cut r p arrived b (omega (arith, h.0)) h.0 f l),
            )
        | inr x ↦
            let (a, f, g) = append-front arrived held (frame p) (frames ps) e (ground arith) in
            let (verdict_p, same, left) =
              read_next_message-frame eof C r p a (omega (arith, h.0)) in
            let d = read_next_message eof C r (frame p ++ a) in
            let (us, more, parts, reads) =
              read_all-cut ps d.reader a held (rw same u) (rw same h.1) g in
            (p ∷ us, more, ap (◌∷◌ p) parts, rw f (ap₂ ◌∷◌ verdict_p (rw left (rw same at reads))))
      ]
