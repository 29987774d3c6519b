-- ===== src/Log/Head.antt =====
-- What `get_head` makes of the listing.
use s2c_rs.Base.{
  ℕ, ◌-◌, ◌≤◌, ◌<◌, ◌≡◌, refl, sym, ◌∙◌, true, List, [], ◌∷◌, ◌++◌, map, none, some, Result, ok,
  err, returns, arith, All, u64_max, append-nil, ltb→lt, if◌then◌else◌,
}
use s2c_rs.Backoff.{BackoffCounter, can_attempt, await_attempt}
use s2c_rs.Backoff
use s2c_rs.Failure.{StoreError, is_transient}
use s2c_rs.Paths.{log_entry, invert}
use s2c_rs.Paths.Decimal.{decimal, parse_u64-decimal}
use s2c_rs.Paths.Order.{lex_lt, max_ordered_index, log_entry_newest_first}
use s2c_rs.Store.{ObjectStore}
use s2c_rs.Log.{S2cLog, head_again, head_index, head_loop, get_head, entry_path}

-- The last segment of an entry's path is the print of the number that the key was made from.
abbrev pub NamesEntries : ObjectStore → S2cLog → Type 0
NamesEntries S log = (n : ℕ) → S.filename (S.path_from (log_entry log.keys n)) ≡ some (decimal n)

abbrev pub AreTransient : List StoreError → Type 0
AreTransient = All (λ e. is_transient e ≡ true)

module _ (S : ObjectStore) where
  open S use {State, Location, list, path_from}

  abbrev pub Items : Type 0
  Items = List (Result Location StoreError)

  abbrev pub failures : List StoreError → Items
  failures = map err

  -- The retry counter has no say in the answer.
  head_loop-counter :
      (b c : BackoffCounter) (stream : Items) → head_loop S b stream ≡ head_loop S c stream
  unfolding head_loop head_again
  head_loop-counter b c [] = refl
  head_loop-counter b c (ok l ∷ stream) = refl
  head_loop-counter b c (err e ∷ stream) = ground (
    arith,
    head_loop-counter (if can_attempt b then await_attempt b else b)
        (if can_attempt c then await_attempt c else c) stream,
  )

  -- Transient failures in the stream are passed over, whatever the retry options say.
  head_loop-failures :
      (es : List StoreError) (b : BackoffCounter) (rest : Items)
      → AreTransient es
      → head_loop S b (failures es ++ rest) ≡ head_loop S b rest
  unfolding head_loop head_again
  head_loop-failures [] b rest h = refl
  head_loop-failures (e ∷ es) b rest h = ground (
    arith,
    h.0,
    head_loop-failures es (if can_attempt b then await_attempt b else b) rest h.1,
    head_loop-counter (if can_attempt b then await_attempt b else b) b rest,
  )

  abbrev pub entries : S2cLog → List ℕ → Items
  entries log = map (λ i. ok (entry_path S log i))

  head_index-entry :
      (log : S2cLog) (i : ℕ)
      → NamesEntries S log
      → head_index S (entry_path S log i) ≡ returns (ok (some (invert i)))
  unfolding head_index entry_path invert
  head_index-entry log i names =
      ground (arith, names (u64_max - i), parse_u64-decimal (u64_max - i) (omega arith))

  older :
      (log : S2cLog) (i : ℕ) (js : List ℕ)
      → i ≤ max_ordered_index
      → All (λ j. j ≤ max_ordered_index) js
      → All (λ j. lex_lt (log_entry log.keys (invert i)) (log_entry log.keys (invert j)) ≡ true) js
      → All (λ j. j < i) js
  older log i [] h hs ks = tt
  older log i (j ∷ js) h hs ks = (
    ltb→lt j i (sym (log_entry_newest_first log.keys j i hs.0 h) ∙ ks.0),
    older log i js h hs.1 ks.1,
  )

  -- If a listing gives transient failures and then entries with ordered indices whose first one
  -- comes first in byte order, `get_head` returns the inverted index of that first entry, and its
  -- index is larger than every other one.
  pub get_head_newest :
      (log : S2cLog) (s : State) (es : List StoreError) (i : ℕ) (js : List ℕ)
      → NamesEntries S log
      → AreTransient es
      → i ≤ max_ordered_index
      → All (λ j. j ≤ max_ordered_index) js
      → All (λ j. lex_lt (log_entry log.keys (invert i)) (log_entry log.keys (invert j)) ≡ true) js
      → (list (path_from log.keys.log_prefix) s).0 ≡ failures es ++ entries log (i ∷ js)
      → ((get_head S log s).0 ≡ returns (ok (some (invert i)))) × All (λ j. j < i) js
  unfolding get_head head_loop
  get_head_newest log s es i js names transient h hs ks listed = (
    rw listed (
        head_loop-failures es (Backoff.new log.retry) (entries log (i ∷ js)) transient
        ∙ head_index-entry log i names),
    older log i js h hs ks,
  )

  -- If a listing gives nothing but transient failures, `get_head` reports an empty log.
  pub get_head_missing :
      (log : S2cLog) (s : State) (es : List StoreError)
      → AreTransient es
      → (list (path_from log.keys.log_prefix) s).0 ≡ failures es
      → (get_head S log s).0 ≡ returns (ok none)
  unfolding get_head head_loop
  get_head_missing log s es transient listed =
      rw (listed, ← append-nil (failures es))
        (head_loop-failures es (Backoff.new log.retry) [] transient)
