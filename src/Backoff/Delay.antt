-- ===== src/Backoff/Delay.antt =====
-- `calculate_duration` and `sleep_ms` against the exponential delay.
use native.Mathlib.Nat.{pow-le-pow_right}
use s2c_rs.Base.{
  ℕ, zero, suc, ◌+◌, ◌-◌, ◌*◌, ◌≤◌, ◌<◌, ◌^◌, ◌%◌, min, ◌≡◌, ap, arith, u64_max, u32_add, some,
  if◌then◌else◌, ltb, Bool-cases, inl, inr,
}
use s2c_rs.Backoff.{BackoffCounter, multiplier, saturating_mul, calculate_duration, sleep_ms}

pow-ge-64 : (n : ℕ) → 64 ≤ n → 2 ^ 64 ≤ 2 ^ n
pow-ge-64 n h = pow-le-pow_right (omega arith) h

-- A factor that saturates is out of the reach of the cap, as the exact one is.
min-saturated :
    (cap base n : ℕ)
    → cap < 2 ^ 64
    → 2 ^ 64 ≤ n
    → min cap (min (base * u64_max) u64_max) ≡ min cap (base * n)
min-saturated cap zero n h k = omega arith
min-saturated cap (suc base) n h k = grind arith

capped :
    (cap base n : ℕ)
    → cap < 2 ^ 64
    → min cap (saturating_mul base (if ltb n 64 then 2 ^ n else u64_max)) ≡ min cap (base * 2 ^ n)
unfolding saturating_mul
capped cap base n h = elim (Bool-cases (ltb n 64)) [
  | inl e ↦ rw e (omega arith)
  | inr e ↦ rw e (min-saturated cap base (2 ^ n) h (pow-ge-64 n (ground arith)))
]

delay_exact :
    (cap base attempt : ℕ)
    → 1 ≤ attempt
    → attempt < 2 ^ 32
    → cap < 2 ^ 64
    → min (cap % 2 ^ 64) (saturating_mul base (multiplier attempt))
      ≡ min cap (base * 2 ^ (attempt - 1))
unfolding multiplier
delay_exact cap base attempt h1 h2 h3 =
    let e : (attempt + 2 ^ 32 - 1) % 2 ^ 32 ≡ attempt - 1 = omega arith in
    let e' : cap % 2 ^ 64 ≡ cap = omega arith in rw (e, e') (capped cap base (attempt - 1) h3)

-- If the cap in milliseconds is below 2 ^ 64, the delay of an attempt from 1 on that is a u32 is
-- the jitter of the smaller of the cap and the base delay doubled once for each attempt before
-- it, without a trace of saturation.
pub calculate_duration_lem :
    (jitter : ℕ → ℕ) (b : BackoffCounter) (attempt : ℕ)
    → 1 ≤ attempt
    → attempt < 2 ^ 32
    → b.options.max_delay_seconds * 1000 < 2 ^ 64
    → calculate_duration jitter b attempt
      ≡ jitter
          (min (b.options.max_delay_seconds * 1000) (b.options.base_delay_ms * 2 ^ (attempt - 1)))
unfolding calculate_duration
calculate_duration_lem jitter b attempt h1 h2 h3 =
    ap jitter (delay_exact _ b.options.base_delay_ms attempt h1 h2 h3)

-- If the jitter does not lengthen a delay below 2 ^ 53, the cap in milliseconds is below 2 ^ 53
-- and the counter does not wrap, a sleep is at most the cap and at most the base delay doubled
-- once for each attempt before it.
pub sleep_ms_bound :
    (jitter : ℕ → ℕ) (b : BackoffCounter) (d : ℕ)
    → ((n : ℕ) → n < 2 ^ 53 → jitter n ≤ n)
    → b.options.max_delay_seconds * 1000 < 2 ^ 53
    → b.current_attempt + 1 < 2 ^ 32
    → sleep_ms jitter b ≡ some d
    → (d ≤ b.options.max_delay_seconds * 1000)
      × (d ≤ b.options.base_delay_ms * 2 ^ b.current_attempt)
unfolding sleep_ms
sleep_ms_bound jitter b d short small fits h =
    let a : u32_add b.current_attempt 1 ≡ b.current_attempt + 1 = omega arith in
    let e : b.current_attempt + 1 - 1 ≡ b.current_attempt = omega arith in
    ground (
      arith,
      a,
      calculate_duration_lem jitter b (b.current_attempt + 1),
      short (
          min (b.options.max_delay_seconds * 1000)
            (b.options.base_delay_ms * 2 ^ (b.current_attempt + 1 - 1))),
      ap (λ (t : ℕ). b.options.base_delay_ms * 2 ^ t) e,
    )
