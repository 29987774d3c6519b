-- ===== src/Net/Wire/Delivery.antt =====
-- The payloads of a client at the reader at the other end of its connection.
use s2c_rs.Base.{
  ℕ, zero, suc, take, drop, append_assoc, err, ◌≤◌, ◌≡◌, refl, sym, subst, ap, ◌∙◌, Bool, List, [],
  ◌∷◌, ◌++◌, map, append-nil, Bytes, ok, IsU32, All, length,
}
use mathlib.Core.Logic.{∥∥₁_map, ∥∥₁_elim}
use mathlib.Core.List.{Sublistᴰ, Sublist, nil-sublist}
use mathlib.Core.List.Sublist
use s2c_rs.Codec.{Codec, CodecLaws}
use s2c_rs.Config.{S2cOptions}
use s2c_rs.Context.{Context}
use s2c_rs.Proto.{S2cMessage}
use s2c_rs.Net.Framing.{Reader, frame}
use s2c_rs.Net.Framing.Stream.{verdict, verdicts-encode, frames, read_all}
use s2c_rs.Net.Framing.Cut.{read_all-cut}
use s2c_rs.Net.Error.{io}
use s2c_rs.Net.Client.{Client}
use s2c_rs.Net.Client
use s2c_rs.Net.Client.System.{Reach}
use s2c_rs.Net.Client.Order.{Streamed, whole, cut, payloads, written_in_order}

-- What comes first in a sublist is one.
Sublist-front {ℓ} :
    {A : Type ℓ} (xs ys : List A) {zs : List A} → Sublist (xs ++ ys) zs → Sublist xs zs
Sublist-front xs ys s =
    let front : Sublist (xs ++ []) (xs ++ ys) = Sublist.append (Sublist.refl xs) (nil-sublist ys) in
    Sublist.trans (rw append-nil at front) s

module _ {ℓ κ} {A : Type ℓ} {B : Type κ} (f : A → B) where
  -- A sublist of an image is the image of a sublist.
  Sublist-map :
      (xs : List A) {ys zs : List B}
      → Sublistᴰ ys zs
      → zs ≡ map f xs
      → (some_of : List A) × (ys ≡ map f some_of) × Sublistᴰ some_of xs
  Sublist-map [] Sublistᴰ.slnil e = ([], refl, Sublistᴰ.slnil)
  Sublist-map (x ∷ xs) Sublistᴰ.slnil e = absurd cc
  Sublist-map [] (Sublistᴰ.cons s) e = absurd cc
  Sublist-map (x ∷ xs) (Sublistᴰ.cons s) e =
      let (l, h, t) = Sublist-map xs s cc in (l, h, Sublistᴰ.cons t)
  Sublist-map [] (Sublistᴰ.cons-cons g s) e = absurd cc
  Sublist-map (x ∷ xs) (Sublistᴰ.cons-cons g s) e =
      let (l, h, t) = Sublist-map xs s cc in (x ∷ l, cc, Sublistᴰ.cons-cons refl t)

All-Sublist {ℓ κ} :
    {A : Type ℓ} (P : A → Type κ) {xs ys : List A} → Sublistᴰ xs ys → All P ys → All P xs
All-Sublist P Sublistᴰ.slnil h = tt
All-Sublist P (Sublistᴰ.cons s) h = All-Sublist P s h.1
All-Sublist P (Sublistᴰ.cons-cons e s) h = (subst P (sym e) h.0, All-Sublist P s h.1)

length-map {ℓ κ} :
    {A : Type ℓ} {B : Type κ} (f : A → B) (xs : List A) → length (map f xs) ≡ length xs
length-map f [] = refl
length-map f (x ∷ xs) = ap suc (length-map f xs)

frames-append : (ws vs : List Bytes) → frames (ws ++ vs) ≡ frames ws ++ frames vs
frames-append [] vs = refl
frames-append (w ∷ ws) vs =
    ap (λ (x : Bytes). frame w ++ x) (frames-append ws vs)
    ∙ sym (append_assoc (frame w) (frames ws) (frames vs))

take-drop : (n : ℕ) (xs : Bytes) → take n xs ++ drop n xs ≡ xs
take-drop zero xs = refl
take-drop (suc n) [] = refl
take-drop (suc n) (x ∷ xs) = ap (◌∷◌ x) (take-drop n xs)

-- What arrives of a stream in order is the beginning of frames, also where the last one was cut.
whole_frames :
    (ps : List Bytes) (c : Client) (arrived held : Bytes)
    → Streamed ps c
    → arrived ++ held ≡ c.stream
    → (ws : List Bytes) × (more : Bytes) × Sublist ws ps × (arrived ++ more ≡ frames ws)
whole_frames ps c arrived held (whole ws h s) e = (ws, held, Sublist-front ws c.receiver s, e ∙ h)
whole_frames ps c arrived held (cut ws p n g h s) e =
    let last = drop n (frame p) in
    let t : Sublist ((ws ++ (p ∷ [])) ++ c.receiver) ps =
      rw (append_assoc ws (p ∷ []) c.receiver) s in
    (
      ws ++ (p ∷ []),
      held ++ last,
      Sublist-front (ws ++ (p ∷ [])) c.receiver t,
      sym (append_assoc arrived held last)
          ∙ ap (λ (x : Bytes). x ++ last) (e ∙ h)
          ∙ append_assoc (frames ws) (take n (frame p)) last
          ∙ ap (λ (x : Bytes). frames ws ++ x) (take-drop n (frame p) ∙ sym (append-nil (frame p)))
          ∙ sym (frames-append ws (p ∷ [])),
    )

module _ (eof : Bytes) (C : Codec S2cMessage) (L : CodecLaws C) where
  encoded :
      (max : ℕ) (ms : List S2cMessage)
      → All (λ m. length (C.encode m) ≤ max) ms
      → All (λ p. length p ≤ max) (map C.encode ms)
  encoded max [] h = tt
  encoded max (m ∷ ms) h = (h.0, encoded max ms h.1)

  -- If the payloads that a new client has queued on the way to a state are the encodings of
  -- messages that fit the limit of the reader at the other end, a u32, and any beginning of what
  -- was handed to the writer of the last connection has arrived before this ends, then this
  -- reader gives some of these messages, in order, and then the end-of-file error.
  pub delivered_in_order :
      (runs : Bool → Bool) (o : S2cOptions) (context : Context) (c : Client)
      (reach : Reach runs C (Client.new o context) c) (ms : List S2cMessage) (r : Reader)
      (arrived held : Bytes)
      → payloads runs C reach ≡ map C.encode ms
      → IsU32 r.max_message_size
      → All (λ m. length (C.encode m) ≤ r.max_message_size) ms
      → arrived ++ held ≡ c.stream
      → ∥ (
          (got : List S2cMessage) × Sublistᴰ got ms
          × (read_all eof C (suc (length got)) r arrived ≡ map ok got ++ (err (io eof) ∷ []))) ∥₁
  delivered_in_order runs o context c reach ms r arrived held e u h w =
      let max = r.max_message_size in
      let (ws, more, s, stream) =
        whole_frames (payloads runs C reach) c arrived held
          (written_in_order runs C o context c reach) w in
      ∥∥₁_elim s (hlevel) (λ d.
        let fit : All (λ p. length p ≤ max) ws =
          All-Sublist (λ p. length p ≤ max) d (rw e (encoded max ms h)) in
        let (us, later, parts, reads) = read_all-cut eof C ws r arrived more u fit stream in
        ∥∥₁_map (Sublist-front us later (subst (λ l. Sublist l (payloads runs C reach)) parts s))
          (λ f.
            let (got, same, t) = Sublist-map C.encode ms f e in
            let n : length us ≡ length got = ap length same ∙ length-map C.encode got in
            let heard : map (verdict C max) us ≡ map ok got =
              ap (map (verdict C max)) same ∙ verdicts-encode eof C L max got (All-Sublist _ t h) in
            (
              got,
              t,
              ap (λ k. read_all eof C (suc k) r arrived) (sym n)
                  ∙ reads
                  ∙ ap (λ l. l ++ (err (io eof) ∷ [])) heard,
            )))
