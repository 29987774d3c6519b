-- ===== src/Log.antt =====
-- src/log.rs: the log of a group in the object store. Each loop takes fuel; `running` says that it
-- was used up. What a failed call leads to is a function of the error and the retry counter: the
-- counter to go round again with, or `none` to return the error.
pub mod Append
pub mod Keeps
pub mod Read
pub mod Head
pub mod Retry
pub mod Patience
pub mod History
use s2c_rs.Base.{
  ℕ, zero, suc, Bool, true, false, ◌&&◌, List, [], ◌∷◌, Option, none, some, Bytes, Result, ok, err,
  Outcome, returns, panics, running, if◌then◌else◌,
}
use s2c_rs.Config.{S2cRetryOptions}
use s2c_rs.Backoff.{BackoffCounter, can_attempt, await_attempt, reset}
use s2c_rs.Backoff
use s2c_rs.Failure.{StoreError, generic, not_found, already_exists, other, is_transient}
use s2c_rs.Paths.{KeysResolver, log_entry, invert}
use s2c_rs.Paths
use s2c_rs.Paths.Decimal.{parse_u64}
use s2c_rs.Store.{ObjectStore}

pub record S2cLog : Type 0 where
  pub keys : KeysResolver
  pub retry : S2cRetryOptions

unfoldable pub new : Bytes → S2cRetryOptions → S2cLog
new group_id retry = record { keys = Paths.new group_id; retry = retry }

-- A `Generic` error that is not transient goes round again without a wait.
unfoldable pub append_again : BackoffCounter → StoreError → Option BackoffCounter
append_again b (generic m) =
    if is_transient (generic m)
    then (if can_attempt b then some (await_attempt b) else none)
    else some b
append_again b not_found = none
append_again b already_exists = none
append_again b other = none

unfoldable pub head_again : BackoffCounter → StoreError → Option BackoffCounter
head_again b e =
    if is_transient e then some (if can_attempt b then await_attempt b else b) else none

unfoldable pub read_again : BackoffCounter → StoreError → Option BackoffCounter
read_again b e = if is_transient e && can_attempt b then some (await_attempt b) else none

module _ (S : ObjectStore) where
  open S use {State, Location, path_from, filename, put_create, list, get, bytes}

  unfoldable pub append_loop :
      ℕ → Location → Bytes → BackoffCounter → State → Outcome (Result (Unit {0}) StoreError × State)
  append_loop zero p payload b s = running
  append_loop (suc fuel) p payload b s =
      let (re, s') = put_create p payload s in
      elim re [
        | ok u ↦ returns (ok u, s')
        | err e ↦ elim (append_again b e) [
          | none ↦ returns (err e, s')
          | some b' ↦ append_loop fuel p payload b' s'
        ]
      ]

  unfoldable pub entry_path : S2cLog → ℕ → Location
  entry_path log index = path_from (log_entry log.keys (invert index))

  unfoldable pub append :
      ℕ → S2cLog → ℕ → Bytes → State → Outcome (Result (Unit {0}) StoreError × State)
  append fuel log index payload s =
      append_loop fuel (entry_path log index) payload (Backoff.new log.retry) s

  -- The name of the first object that the stream yields.
  unfoldable pub head_index : Location → Outcome (Result (Option ℕ) StoreError)
  head_index location = elim (filename location) [
    | none ↦ returns (ok none)
    | some name ↦ elim (parse_u64 name) [ none ↦ panics | some index ↦ returns (ok (some index)) ]
  ]

  unfoldable pub head_loop :
      BackoffCounter → List (Result Location StoreError) → Outcome (Result (Option ℕ) StoreError)
  head_loop b [] = returns (ok none)
  head_loop b (ok location ∷ stream) = head_index location
  head_loop b (err e ∷ stream) = elim (head_again b e) [
    | none ↦ returns (err e)
    | some b' ↦ head_loop b' stream
  ]

  unfoldable pub get_head : S2cLog → State → Outcome (Result (Option ℕ) StoreError) × State
  get_head log s =
      let (stream, s') = list (path_from log.keys.log_prefix) s in
      (head_loop (Backoff.new log.retry) stream, s')

  unfoldable pub get_loop :
      ℕ → Location → BackoffCounter → State → Outcome (Result Bytes StoreError × State)
  get_loop zero p b s = running
  get_loop (suc fuel) p b s =
      let (re, s') = get p s in
      elim re [
        | ok h ↦
            let (body, s'') = bytes h s' in
            elim body [
              | ok v ↦ returns (ok v, s'')
              | err e ↦ elim (read_again (reset b) e) [
                | none ↦ returns (err e, s'')
                | some b' ↦ get_loop fuel p b' s''
              ]
            ]
        | err e ↦ elim (read_again b e) [
          | none ↦ returns (err e, s')
          | some b' ↦ get_loop fuel p b' s'
        ]
      ]

  unfoldable pub get_at : ℕ → S2cLog → ℕ → State → Outcome (Result Bytes StoreError × State)
  get_at fuel log index s = get_loop fuel (entry_path log index) (Backoff.new log.retry) s
