-- ===== src/Backoff/Attempts.antt =====
-- How many attempts a counter grants.
use s2c_rs.Base.{ℕ, zero, suc, ◌+◌, ◌-◌, ◌≤◌, ◌<◌, ◌^◌, min, ◌≡◌, true, some, arith, ltb}
use s2c_rs.Config.{S2cRetryOptions}
use s2c_rs.Backoff.{BackoffCounter, new, can_attempt, await_attempt}

-- The counter is bounded by `m` attempts, has used at most those, and cannot wrap.
pub record Within (m : ℕ) (b : BackoffCounter) : Type 0 where
  pub limit : b.options.max_attempts ≡ some m
  pub small : m + 1 < 2 ^ 32
  pub used : b.current_attempt ≤ m

pub new-Within :
    (o : S2cRetryOptions) (m : ℕ) → o.max_attempts ≡ some m → m + 1 < 2 ^ 32 → Within m (new o)
unfolding new
new-Within o m h s = record { limit = h; small = s; used = omega arith }

pub await_attempt-Within : (m : ℕ) (b : BackoffCounter) → Within m b → Within m (await_attempt b)
unfolding await_attempt can_attempt
await_attempt-Within m b w = ground (arith, w.limit)

pub can_attempt_left :
    (m : ℕ) (b : BackoffCounter)
    → Within m b
    → can_attempt b ≡ true
    → m - (await_attempt b).current_attempt < m - b.current_attempt
unfolding await_attempt can_attempt
can_attempt_left m b w h = ground (arith, w.limit)

-- A round that waits leaves fewer attempts.
pub await_left :
    (m : ℕ) (b b' : BackoffCounter)
    → Within m b
    → can_attempt b ≡ true
    → b' ≡ await_attempt b
    → Within m b' × (m - b'.current_attempt < m - b.current_attempt)
await_left m b b' w c e = rw e (await_attempt-Within m b w, can_attempt_left m b w c)

-- `n` calls of `await_attempt`.
pub awaits : ℕ → BackoffCounter → BackoffCounter
awaits zero b = b
awaits (suc n) b = awaits n (await_attempt b)

await_attempt-current :
    (m : ℕ) (b : BackoffCounter)
    → Within m b
    → (await_attempt b).current_attempt ≡ min (suc b.current_attempt) m
unfolding await_attempt can_attempt
await_attempt-current m b w = ground (arith, w.limit)

awaits-current :
    (n m : ℕ) (b : BackoffCounter)
    → Within m b
    → ((awaits n b).current_attempt ≡ min (n + b.current_attempt) m)
      × (can_attempt (awaits n b) ≡ ltb (n + b.current_attempt) m)
unfolding awaits can_attempt
awaits-current zero m b w = ground (arith, w.limit)
awaits-current (suc n) m b w = ground (
  arith,
  awaits-current n m (await_attempt b) (await_attempt-Within m b w),
  await_attempt-current m b w,
)

-- With `m` attempts allowed and `m + 1` below 2 ^ 32, `n` waits on a new counter leave it at the
-- smaller of `n` and `m`, and another attempt is allowed exactly if `n` is below `m`.
pub awaits-new :
    (o : S2cRetryOptions) (m n : ℕ)
    → o.max_attempts ≡ some m
    → m + 1 < 2 ^ 32
    → ((awaits n (new o)).current_attempt ≡ min n m) × (can_attempt (awaits n (new o)) ≡ ltb n m)
unfolding new
awaits-new o m n h s = ground (arith, awaits-current n m (new o) (new-Within o m h s))
