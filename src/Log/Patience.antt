-- ===== src/Log/Patience.antt =====
-- When `get_at` of src/log.rs ends.
use s2c_rs.Base.{
  ℕ, zero, suc, ◌+◌, ◌-◌, ◌≤◌, ◌<◌, ◌^◌, ◌≡◌, refl, true, false, some, Bytes, Result, ok, err,
  returns, running, Ends, Ends-value, Bool-cases, inl, inr, arith,
}
use s2c_rs.Backoff.{BackoffCounter, can_attempt, await_attempt, reset}
use s2c_rs.Backoff
use s2c_rs.Backoff.Attempts.{Within, new-Within, await_attempt-Within, can_attempt_left}
use s2c_rs.Failure.{StoreError, is_transient}
use s2c_rs.Store.{ObjectStore}
use s2c_rs.Log.{S2cLog, read_again, get_loop, get_at, entry_path}
use s2c_rs.Log.Read.{get_loop_cases}

-- The bodies of the store do not fail for a moment only.
abbrev pub BodiesSettled : ObjectStore → Type 0
BodiesSettled S =
    (h : S.Handle) (s : S.State) (e : StoreError) → (S.bytes h s).0 ≡ err e → is_transient e ≡ false

read_again_left :
    (m : ℕ) (b b' : BackoffCounter) (e : StoreError)
    → Within m b
    → read_again b e ≡ some b'
    → Within m b' × (m - b'.current_attempt < m - b.current_attempt)
unfolding read_again
read_again_left m b b' e w n = elim (Bool-cases (can_attempt b)) [
  | inl c ↦
      let same : b' ≡ await_attempt b = ground arith in
      rw same (await_attempt-Within m b w, can_attempt_left m b w c)
  | inr c ↦ absurd (ground arith)
]

read_again_settled :
    (b b' : BackoffCounter) (e : StoreError) → is_transient e ≡ false → read_again b e ≡ some b' → ⊥
unfolding read_again
read_again_settled b b' e t n = ground arith

module _ (S : ObjectStore) where
  get_loop-Ends :
      (m fuel : ℕ) (p : S.Location) (b : BackoffCounter) (s : S.State)
      → BodiesSettled S
      → Within m b
      → m - b.current_attempt < fuel
      → Ends (get_loop S fuel p b s)
  get_loop-Ends m zero p b s settled w h = absurd (omega arith)
  get_loop-Ends m (suc fuel) p b s settled w h =
      get_loop_cases S Ends fuel p b s (λ x v _ _. tt)
        (λ x e _ k. (
          λ _. tt,
          λ b' n. absurd (read_again_settled (reset b) b' e (settled x (S.get p s).1 e k) n),
        ))
        (λ e _. (
          λ _. tt,
          λ b' n.
              let (w', l) = read_again_left m b b' e w n in
              get_loop-Ends m fuel p b' (S.get p s).1 settled w' (omega arith),
        ))

  -- If the body of an object that was found is read without a transient error, and at most `m`
  -- attempts are allowed, with `m + 1` below 2 ^ 32, then `m + 1` rounds are enough for a read to
  -- return.
  pub get_at_ends :
      (m : ℕ) (log : S2cLog) (index : ℕ) (s : S.State)
      → BodiesSettled S
      → log.retry.max_attempts ≡ some m
      → m + 1 < 2 ^ 32
      → (r : Result Bytes StoreError × S.State) × (get_at S (m + 1) log index s ≡ returns r)
  unfolding get_at
  get_at_ends m log index s settled h k =
      Ends-value (get_loop S (m + 1) (entry_path S log index) (Backoff.new log.retry) s) (
        get_loop-Ends m (m + 1) (entry_path S log index) (Backoff.new log.retry) s settled
          (new-Within log.retry m h k) (omega arith))

  -- Every object is found, and its body fails for a moment, again and again.
  abbrev pub BodiesFlicker : Type 0
  BodiesFlicker =
      ((p : S.Location) (s : S.State) → (h : S.Handle) × ((S.get p s).0 ≡ ok h))
      × ((h : S.Handle) (s : S.State)
          → (e : StoreError) × ((S.bytes h s).0 ≡ err e) × (is_transient e ≡ true))

  reset_again :
      (m : ℕ) (b : BackoffCounter) (e : StoreError)
      → b.options.max_attempts ≡ some m
      → 1 ≤ m
      → is_transient e ≡ true
      → read_again (reset b) e ≡ some (await_attempt (reset b))
  unfolding read_again reset can_attempt
  reset_again m b e h k t = ground (arith, h, t)

  same_limit :
      (m : ℕ) (b : BackoffCounter)
      → b.options.max_attempts ≡ some m
      → (await_attempt (reset b)).options.max_attempts ≡ some m
  unfolding await_attempt reset can_attempt
  same_limit m b h = ground (arith, h)

  get_loop_spins :
      (m fuel : ℕ) (p : S.Location) (b : BackoffCounter) (s : S.State)
      → BodiesFlicker
      → b.options.max_attempts ≡ some m
      → 1 ≤ m
      → get_loop S fuel p b s ≡ running
  unfolding get_loop
  get_loop_spins m zero p b s f h k = refl
  get_loop_spins m (suc fuel) p b s f h k =
      let (x, e) = f.0 p s in
      let (y, g, t) = f.1 x (S.get p s).1 in
      rw (e, g, reset_again m b y h k t, get_loop)
        (get_loop_spins m fuel p (await_attempt (reset b)) (S.bytes x (S.get p s).1).1 f
          (same_limit m b h) k)

  pub get_at_spins :
      (m fuel : ℕ) (log : S2cLog) (index : ℕ) (s : S.State)
      → BodiesFlicker
      → log.retry.max_attempts ≡ some m
      → 1 ≤ m
      → get_at S fuel log index s ≡ running
  unfolding get_at Backoff.new
  get_at_spins m fuel log index s f h k =
      get_loop_spins m fuel (entry_path S log index) (Backoff.new log.retry) s f h k
