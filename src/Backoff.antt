-- ===== src/Backoff.antt =====
-- src/backoff.rs: the retry counter. `await_attempt` is split into the counter that it leaves and
-- the time that it sleeps, `sleep_ms`; the random factor of that time is an argument.
pub mod Attempts
pub mod Delay
use s2c_rs.Base.{
  ℕ, ◌+◌, ◌-◌, ◌*◌, ◌%◌, ◌^◌, min, Bool, true, Option, none, some, if◌then◌else◌, ltb, leb, u64_max,
  u32_add,
}
use s2c_rs.Config.{S2cRetryOptions}

pub record BackoffCounter : Type 0 where
  pub current_attempt : ℕ  -- u32
  pub options : S2cRetryOptions

unfoldable pub new : S2cRetryOptions → BackoffCounter
new o = record { current_attempt = 0; options = o }

unfoldable pub can_attempt : BackoffCounter → Bool
can_attempt b = elim b.options.max_attempts [
  | some max_attempts ↦ leb (u32_add b.current_attempt 1) max_attempts
  | none ↦ true
]

unfoldable pub await_attempt : BackoffCounter → BackoffCounter
await_attempt b =
    if can_attempt b then record b { current_attempt = u32_add b.current_attempt 1 } else b

unfoldable pub reset : BackoffCounter → BackoffCounter
reset b = record b { current_attempt = 0 }

-- `1u64.checked_shl(attempt - 1).unwrap_or(u64::MAX)`; the subtraction is on u32.
multiplier : ℕ → ℕ
multiplier attempt =
    let shift = (attempt + 2 ^ 32 - 1) % 2 ^ 32 in if ltb shift 64 then 2 ^ shift else u64_max

saturating_mul : ℕ → ℕ → ℕ
saturating_mul a b = min (a * b) u64_max

-- `calculate_duration` in milliseconds. `jitter` is `(x as f64 * factor) as u64` for the random
-- factor of the call.
unfoldable pub calculate_duration : (ℕ → ℕ) → BackoffCounter → ℕ → ℕ
unfolding multiplier saturating_mul
calculate_duration jitter b attempt =
    let max_ms = b.options.max_delay_seconds * 1000 % 2 ^ 64 in
    let calculated_ms = saturating_mul b.options.base_delay_ms (multiplier attempt) in
    jitter (min max_ms calculated_ms)

-- The time that `await_attempt` sleeps; it returns at once where no attempt is left.
unfoldable pub sleep_ms : (ℕ → ℕ) → BackoffCounter → Option ℕ
sleep_ms jitter b =
    if can_attempt b then some (calculate_duration jitter b (u32_add b.current_attempt 1)) else none
