-- ===== src/Log/Retry.antt =====
-- When the loops of src/log.rs end.
use s2c_rs.Base.{
  ℕ, zero, suc, ◌+◌, ◌-◌, ◌<◌, ◌^◌, ◌≡◌, refl, true, false, some, Bytes, Result, err, returns,
  running, Ends, Bool-cases, Ends-value, inl, inr, arith,
}
use s2c_rs.Backoff.{BackoffCounter, can_attempt, await_attempt, reset}
use s2c_rs.Backoff
use s2c_rs.Backoff.Attempts.{Within, new-Within, await_left}
use s2c_rs.Failure.{StoreError, generic, not_found, already_exists, other, is_transient}
use s2c_rs.Store.{ObjectStore}
use s2c_rs.Log.{S2cLog, append_again, append_loop, append, entry_path}
use s2c_rs.Log.Append.{append_loop_cases}

-- Every `Generic` error of a create is a transient one.
abbrev pub CreateFailuresTransient : ObjectStore → Type 0
CreateFailuresTransient S =
    (p : S.Location) (v : Bytes) (s : S.State) (m : Bytes)
    → (S.put_create p v s).0 ≡ err (generic m)
    → is_transient (generic m) ≡ true

-- A round that goes on after a transient error has used an attempt.
append_again_left :
    (m : ℕ) (b b' : BackoffCounter) (e : StoreError)
    → Within m b
    → ((t : Bytes) → e ≡ generic t → is_transient (generic t) ≡ true)
    → append_again b e ≡ some b'
    → Within m b' × (m - b'.current_attempt < m - b.current_attempt)
unfolding append_again
append_again_left m b b' (generic t) w h n = elim (Bool-cases (can_attempt b)) [
  | inl c ↦ await_left m b b' w c (ground (arith, h t refl))
  | inr c ↦ absurd (ground (arith, h t refl))
]
append_again_left m b b' not_found w h n = cc
append_again_left m b b' already_exists w h n = cc
append_again_left m b b' other w h n = cc

module _ (S : ObjectStore) (transient : CreateFailuresTransient S) where
  open S use {State, Location, put_create}

  append_loop-Ends :
      (m fuel : ℕ) (p : Location) (v : Bytes) (b : BackoffCounter) (s : State)
      → Within m b
      → m - b.current_attempt < fuel
      → Ends (append_loop S fuel p v b s)
  append_loop-Ends m zero p v b s w h = absurd (omega arith)
  append_loop-Ends m (suc fuel) p v b s w h =
      append_loop_cases S Ends fuel p v b s (λ _. tt) (λ _ _ _. tt)
        λ e b' r n.
          let (w', l) = append_again_left m b b' e w (λ t q. transient p v s t (cc)) n in
          append_loop-Ends m fuel p v b' (put_create p v s).1 w' (omega arith)

  -- If every `Generic` error of a create is transient and at most `m` attempts are allowed, with
  -- `m + 1` below 2 ^ 32, then `m + 1` rounds are enough for an append to return.
  pub append_ends :
      (m : ℕ) (log : S2cLog) (index : ℕ) (v : Bytes) (s : State)
      → log.retry.max_attempts ≡ some m
      → m + 1 < 2 ^ 32
      → (r : Result (Unit {0}) StoreError × State) × (append S (m + 1) log index v s ≡ returns r)
  unfolding append
  append_ends m log index v s h k =
      Ends-value (append_loop S (m + 1) (entry_path S log index) v (Backoff.new log.retry) s) (
        append_loop-Ends m (m + 1) (entry_path S log index) v (Backoff.new log.retry) s
          (new-Within log.retry m h k) (omega arith))

-- A store whose creates fail for good, each with an error that is not transient, keeps `append`
-- in its loop for ever.
append_loop_spins :
    (S : ObjectStore) (fuel : ℕ) (p : S.Location) (v : Bytes) (b : BackoffCounter) (s : S.State)
    → ((q : S.Location) (w : Bytes) (t : S.State)
        → (m : Bytes) × ((S.put_create q w t).0 ≡ err (generic m))
          × (is_transient (generic m) ≡ false))
    → append_loop S fuel p v b s ≡ running
unfolding append_loop append_again
append_loop_spins S zero p v b s h = refl
append_loop_spins S (suc fuel) p v b s h =
    let (m, e, q) = h p v s in
    ground (arith, e, q, append_loop_spins S fuel p v b (S.put_create p v s).1 h)

-- If every create of a store fails with a `Generic` error that is not transient, an append has
-- not returned after any number of rounds.
pub append_spins :
    (S : ObjectStore) (fuel : ℕ) (log : S2cLog) (index : ℕ) (v : Bytes) (s : S.State)
    → ((p : S.Location) (w : Bytes) (t : S.State)
        → (m : Bytes) × ((S.put_create p w t).0 ≡ err (generic m))
          × (is_transient (generic m) ≡ false))
    → append S fuel log index v s ≡ running
unfolding append
append_spins S fuel log index v s h =
    append_loop_spins S fuel (entry_path S log index) v (Backoff.new log.retry) s h
