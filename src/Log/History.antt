-- ===== src/Log/History.antt =====
-- The log as a map that is written once: what any nodes do to it, against an abstract map.
use s2c_rs.Base.{
  ℕ, ◌≡◌, refl, ap, subst, ◌∙◌, Bool, true, false, inl, inr, List, [], ◌∷◌, Option, none, some,
  Option-cases, Bytes, Result, ok, err, returns, arith, ◌==◌, if◌then◌else◌, eq_bytes,
  eq_bytes_refl, ℕ_discrete, ◌&&◌,
}
use s2c_rs.Failure.{StoreError}
use s2c_rs.Paths.{KeysResolver}
use s2c_rs.Store.{ObjectStore, StoreLaws, Extends}
use s2c_rs.Log.{S2cLog, append, get_at, entry_path}
use s2c_rs.Log.Append.{append-Appended}
use s2c_rs.Log.Read.{get_at-Fetched}

-- An operation of some node that has returned, with its result.
pub data Event : Type 0 where
  appended : ℕ → Bytes → Result (Unit {0}) StoreError → Event
  fetched : ℕ → Result Bytes StoreError → Event

-- The abstract log: an entry is known once it was appended or read.
abbrev pub Entries : Type 0
Entries = ℕ → Option Bytes

abbrev pub set_entry : ℕ → Bytes → Entries → Entries
set_entry i v m j = if i == j then some v else m j

-- Whether the known entry, if there is one, is `v`.
abbrev pub agrees : Option Bytes → Bytes → Bool
agrees none v = true
agrees (some w) v = eq_bytes w v

abbrev pub is_unknown : Option Bytes → Bool
is_unknown none = true
is_unknown (some w) = false

-- What the abstract log allows: an append succeeds at most where no entry is known, and a read
-- gives the known entry.
unfoldable pub allows : Entries → List Event → Bool
allows m [] = true
allows m (appended i v (ok u) ∷ es) =
    let rest = allows (set_entry i v m) es in is_unknown (m i) && rest
allows m (appended i v (err e) ∷ es) = allows m es
allows m (fetched i (ok v) ∷ es) = let rest = allows (set_entry i v m) es in agrees (m i) v && rest
allows m (fetched i (err e) ∷ es) = allows m es

module _ (S : ObjectStore) (L : StoreLaws S) (keys : KeysResolver) where
  open S use {State}

  -- A history of the store: operations of nodes with logs under the same keys, and whatever else
  -- keeps what is stored.
  pub data History : State → List Event → Type 0 where
    ends : {s : State} → History s []
    appends :
        {s t : State} {es : List Event} {r : Result (Unit {0}) StoreError} (fuel : ℕ) (log : S2cLog)
        (i : ℕ) (v : Bytes)
        → log.keys ≡ keys
        → append S fuel log i v s ≡ returns (r, t)
        → History t es
        → History s (appended i v r ∷ es)
    fetches :
        {s t : State} {es : List Event} {r : Result Bytes StoreError} (fuel : ℕ) (log : S2cLog)
        (i : ℕ)
        → log.keys ≡ keys
        → get_at S fuel log i s ≡ returns (r, t)
        → History t es
        → History s (fetched i r ∷ es)
    others : {s t : State} {es : List Event} → Extends S L s t → History t es → History s es

  abbrev any_log : S2cLog
  any_log = record {
    keys = keys;
    retry = record { max_delay_seconds = 0; base_delay_ms = 0; max_attempts = none };
  }

  -- What is known is stored.
  abbrev pub Known : Entries → State → Type 0
  Known m s = (i : ℕ) (v : Bytes) → m i ≡ some v → L.contents s (entry_path S any_log i) ≡ some v

  same_entry :
      (log : S2cLog) (i : ℕ) → log.keys ≡ keys → entry_path S log i ≡ entry_path S any_log i
  unfolding entry_path
  same_entry log i e = cc

  Known-later : (m : Entries) (s t : State) → Known m s → Extends S L s t → Known m t
  Known-later m s t k x i v h = x (entry_path S any_log i) v (k i v h)

  Known-set_entry :
      (m : Entries) (i : ℕ) (v : Bytes) (s : State)
      → Known m s
      → L.contents s (entry_path S any_log i) ≡ some v
      → Known (set_entry i v m) s
  Known-set_entry m i v s k e j w h = elim (ℕ_discrete i j) [
    | yes same ↦
        let x : v ≡ w = ground arith in
        subst (λ n. L.contents s (entry_path S any_log n) ≡ some w) same (e ∙ ap some x)
    | no other ↦ k j w (ground arith)
  ]

  unknown_free :
      (m : Entries) (i : ℕ) (s : State)
      → Known m s
      → L.contents s (entry_path S any_log i) ≡ none
      → is_unknown (m i) ≡ true
  unknown_free m i s k e = elim (Option-cases (m i)) [
    | inl n ↦ rw n refl
    | inr (w, n) ↦ cc (k i w n)
  ]

  entry_agrees :
      (m : Entries) (i : ℕ) (v : Bytes) (s : State)
      → Known m s
      → L.contents s (entry_path S any_log i) ≡ some v
      → agrees (m i) v ≡ true
  entry_agrees m i v s k e = elim (Option-cases (m i)) [
    | inl n ↦ rw n refl
    | inr (w, n) ↦ let x : w ≡ v = cc (k i w n) in rw (n, x) (eq_bytes_refl v)
  ]

  allowed :
      (m : Entries) (s : State) (es : List Event) → History s es → Known m s → allows m es ≡ true
  unfolding allows
  allowed m s es ends k = refl
  allowed m s es (others x h) k = allowed m _ es h (Known-later m s _ k x)
  allowed m s es (appends {r = err e} fuel log i v same a h) k =
      let done = append-Appended S L fuel log i v s _ _ a in
      allowed m _ _ h (Known-later m s _ k done.keeps)
  allowed m s es (appends {r = ok tt} fuel log i v same a h) k =
      let done = append-Appended S L fuel log i v s _ _ a in
      let (free, stored) = done.stores refl in
      let free' = rw (same_entry log i same) at free in
      let stored' = rw (same_entry log i same) at stored in
      rw (unknown_free m i s k free') (
        allowed (set_entry i v m) _ _ h
          (Known-set_entry m i v _ (Known-later m s _ k done.keeps) stored'))
  allowed m s es (fetches {r = err e} fuel log i same g h) k =
      let done = get_at-Fetched S L fuel log i s _ _ g in
      allowed m _ _ h (Known-later m s _ k done.keeps)
  allowed m s es (fetches {r = ok v} fuel log i same g h) k =
      let done = get_at-Fetched S L fuel log i s _ _ g in
      let stored' = rw (same_entry log i same) at (done.reads v refl) in
      let later = Known-later m s _ k done.keeps in
      rw (entry_agrees m i v _ later stored')
        (allowed (set_entry i v m) _ _ h (Known-set_entry m i v _ later stored'))

  -- Any sequence of appends and reads that return, by logs with the same keys, with anything in
  -- between that keeps what is stored, is allowed by a map that is written once: no append
  -- succeeds at an index that is known by an earlier success or read, and every read that
  -- succeeds gives the entry that is known.
  pub written_once : (s : State) (es : List Event) → History s es → allows (λ i. none) es ≡ true
  written_once s es h = allowed (λ i. none) s es h (λ i v e. cc)
