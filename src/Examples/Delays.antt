-- ===== src/Examples/Delays.antt =====
-- The default retry options.
use s2c_rs.Base.{◌≤◌, ◌*◌, ◌/◌, ◌^◌, ◌≡◌, refl, some, arith}
use s2c_rs.Config.{default_retry}
use s2c_rs.Backoff.{BackoffCounter, can_attempt, calculate_duration, sleep_ms}
use s2c_rs.Backoff
use s2c_rs.Backoff.Delay.{sleep_ms_bound}

abbrev counter : BackoffCounter
counter = Backoff.new default_retry

sleeps : sleep_ms (λ n. n / 2) counter ≡ some 150
unfolding sleep_ms can_attempt Backoff.new calculate_duration
sleeps = refl

sleep_ms_bound_example :
    (150 ≤ counter.options.max_delay_seconds * 1000)
    × (150 ≤ counter.options.base_delay_ms * 2 ^ counter.current_attempt)
unfolding Backoff.new
sleep_ms_bound_example =
    sleep_ms_bound (λ n. n / 2) counter 150 (λ n h. omega arith) (omega arith) (omega arith) sleeps
