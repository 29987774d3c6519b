-- ===== src/Examples/Memory.antt =====
-- A store in memory that lists the newest object first.
use s2c_rs.Base.{
  eq_bytes, eq_bytes_refl, ◌≡◌, refl, ◌≢◌, List, [], ◌∷◌, ◌++◌, map, Option, none, some,
  Option-cases, true, Bytes, Result, ok, err, arith, ◌==◌, if◌then◌else◌, Bool-cases, inl, inr,
}
use s2c_rs.Failure.{StoreError, not_found, already_exists}
use s2c_rs.Store.{ObjectStore, StoreLaws}

abbrev pub Objects : Type 0
Objects = List (Bytes × Bytes)

abbrev pub find : Bytes → Objects → Option Bytes
find k [] = none
find k ((j, v) ∷ t) = let rest = find k t in if eq_bytes j k then some v else rest

abbrev pub create : Bytes → Bytes → Objects → Result (Unit {0}) StoreError × Objects
create k v t = elim (find k t) [ none ↦ (ok tt, (k, v) ∷ t) | some w ↦ (err already_exists, t) ]

abbrev pub fetch : Bytes → Objects → Result Bytes StoreError × Objects
fetch k t = elim (find k t) [ none ↦ (err not_found, t) | some w ↦ (ok w, t) ]

abbrev pub last_segment : Bytes → Bytes → Bytes
last_segment seen [] = seen
last_segment seen (c ∷ s) =
    if c == b'/' then last_segment [] s else last_segment (seen ++ (c ∷ [])) s

abbrev pub memory : ObjectStore
memory = record {
  State = Objects;
  Location = Bytes;
  Handle = Bytes;
  path_from = λ p. p;
  filename = λ p. some (last_segment [] p);
  put_create = create;
  list = λ p t. (map (λ o. ok o.0) t, t);
  get = fetch;
  bytes = λ h t. (ok h, t);
}

eq_bytes_sound : (s t : Bytes) → eq_bytes s t ≡ true → s ≡ t
eq_bytes_sound [] [] h = refl
eq_bytes_sound [] (d ∷ t) h = ground arith
eq_bytes_sound (c ∷ s) [] h = ground arith
eq_bytes_sound (c ∷ s) (d ∷ t) h = elim (Bool-cases (c == d)) [
  | inl e ↦
      let r : eq_bytes s t ≡ true = ground arith in
      let q : c ≡ d = ground arith in rw (q, eq_bytes_sound s t r)
  | inr n ↦ ground arith
]

pub create_ok :
    (p v : Bytes) (t : Objects)
    → (create p v t).0 ≡ ok tt
    → (find p t ≡ none) × (find p (create p v t).1 ≡ some v)
create_ok p v t h = elim (Option-cases (find p t)) [
  | inl e ↦ (e, ground (arith, eq_bytes_refl p))
  | inr (w, e) ↦ ground arith
]

pub create_exists :
    (p v : Bytes) (t : Objects) → (create p v t).0 ≡ err already_exists → find p t ≢ none
create_exists p v t h e = ground arith

pub create_keeps :
    (p v : Bytes) (t : Objects) (q w : Bytes) → find q t ≡ some w → find q (create p v t).1 ≡ some w
create_keeps p v t q w h = elim (Option-cases (find p t)) [
  | inl e ↦ elim (Bool-cases (eq_bytes p q)) [
    | inl y ↦
        let z : p ≡ q = eq_bytes_sound p q y in let k : find q t ≡ none = rw z at e in ground arith
    | inr n ↦ ground arith
  ]
  | inr (x, e) ↦ ground arith
]

pub fetch_ok : (p : Bytes) (t : Objects) (v : Bytes) → (fetch p t).0 ≡ ok v → find p t ≡ some v
fetch_ok p t v h = elim (Option-cases (find p t)) [
  | inl e ↦ ground arith
  | inr (w, e) ↦ ground arith
]

pub fetch_keeps :
    (p : Bytes) (t : Objects) (q w : Bytes) → find q t ≡ some w → find q (fetch p t).1 ≡ some w
fetch_keeps p t q w h = elim (Option-cases (find p t)) [
  | inl e ↦ ground arith
  | inr (x, e) ↦ ground arith
]

pub body_read : (h : Bytes) (t : Objects) (v : Bytes) → (memory.bytes h t).0 ≡ ok v → v ≡ h
body_read h t v e = ground arith

abbrev pub memory_laws : StoreLaws memory
memory_laws = record {
  contents = λ t k. find k t;
  body = λ h. h;
  put_ok = create_ok;
  put_exists = create_exists;
  put_keeps = create_keeps;
  get_ok = fetch_ok;
  get_keeps = fetch_keeps;
  bytes_ok = body_read;
  bytes_keeps = λ h t q w e. e;
  list_keeps = λ p t q w e. e;
}
