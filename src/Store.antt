-- ===== src/Store.antt =====
-- The object store, which is not this repository's code: a parameter of the log. `put_create` is
-- `put_opts` with `PutMode::Create`, `list` gives the items that the stream will yield, `bytes`
-- reads the body of a `get`. The state stands for the store and for whatever else writes to it.
use s2c_rs.Base.{◌≡◌, ◌≢◌, List, Option, none, some, Result, ok, err, Bytes}
use s2c_rs.Failure.{StoreError, already_exists}

pub record ObjectStore : Type 1 where
  pub State : Type 0
  pub Location : Type 0
  pub Handle : Type 0
  pub path_from : Bytes → Location
  pub filename : Location → Option Bytes
  pub put_create : Location → Bytes → State → Result (Unit {0}) StoreError × State
  pub list : Location → State → List (Result Location StoreError) × State
  pub get : Location → State → Result Handle StoreError × State
  pub bytes : Handle → State → Result Bytes StoreError × State

-- What the store documents: a create succeeds only where nothing is stored and then stores the
-- payload, it answers `AlreadyExists` only where something is, a read returns what is stored, and
-- what is stored stays. A failed create may have stored its payload.
pub record StoreLaws (S : ObjectStore) : Type 0 where
  pub contents : S.State → S.Location → Option Bytes
  pub body : S.Handle → Bytes
  pub put_ok :
      (p : S.Location) (v : Bytes) (s : S.State)
      → (S.put_create p v s).0 ≡ ok tt
      → (contents s p ≡ none) × (contents (S.put_create p v s).1 p ≡ some v)
  pub put_exists :
      (p : S.Location) (v : Bytes) (s : S.State)
      → (S.put_create p v s).0 ≡ err already_exists
      → contents s p ≢ none
  pub put_keeps :
      (p : S.Location) (v : Bytes) (s : S.State) (q : S.Location) (w : Bytes)
      → contents s q ≡ some w
      → contents (S.put_create p v s).1 q ≡ some w
  pub get_ok :
      (p : S.Location) (s : S.State) (h : S.Handle)
      → (S.get p s).0 ≡ ok h
      → contents s p ≡ some (body h)
  pub get_keeps :
      (p : S.Location) (s : S.State) (q : S.Location) (w : Bytes)
      → contents s q ≡ some w
      → contents (S.get p s).1 q ≡ some w
  pub bytes_ok : (h : S.Handle) (s : S.State) (v : Bytes) → (S.bytes h s).0 ≡ ok v → v ≡ body h
  pub bytes_keeps :
      (h : S.Handle) (s : S.State) (q : S.Location) (w : Bytes)
      → contents s q ≡ some w
      → contents (S.bytes h s).1 q ≡ some w
  pub list_keeps :
      (p : S.Location) (s : S.State) (q : S.Location) (w : Bytes)
      → contents s q ≡ some w
      → contents (S.list p s).1 q ≡ some w

-- What is stored in `s` is still stored in `t`.
abbrev pub Extends : (S : ObjectStore) → StoreLaws S → S.State → S.State → Type 0
Extends S L s t = (q : S.Location) (w : Bytes) → L.contents s q ≡ some w → L.contents t q ≡ some w
