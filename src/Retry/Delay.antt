-- ===== src/Retry/Delay.antt =====
-- proxy/app/shared/retry.py: the delay before the next attempt.
use rag_system.Base.{ℕ, ◌+◌, ◌*◌, ◌^◌, ◌≤◌, Bool, String, Option, min, arith, if◌then◌else◌}

pub data BackoffStrategy : Type 0 where
  constant linear exponential : BackoffStrategy

-- `retryable` stands for `retryable_exceptions`, a test on the exception `E`; `none` is the empty
-- tuple. `on_retry` only observes, and is left out.
pub record RetryConfig (E : Type 0) : Type 0 where
  pub max_attempts : ℕ
  pub base_delay : ℕ
  pub max_delay : ℕ
  pub strategy : BackoffStrategy
  pub jitter : Bool
  pub retryable_exceptions : Option (E → Bool)
  pub circuit_breaker_name : Option String

unfoldable pub raw_delay : BackoffStrategy → ℕ → ℕ → ℕ
raw_delay constant base attempt = base
raw_delay linear base attempt = base * (attempt + 1)
raw_delay exponential base attempt = base * 2 ^ attempt

-- In hundredths of a tick, so that the jitter is exact.
unfoldable pub compute_delay : {E : Type 0} → ℕ → RetryConfig E → ℕ → ℕ
unfolding raw_delay
compute_delay attempt config factor =
    let delay = min (raw_delay config.strategy config.base_delay attempt) config.max_delay in
    if config.jitter then delay * factor else delay * 100

mul_mono : (a b c d : ℕ) → a ≤ b → c ≤ d → a * c ≤ b * d
mul_mono a b c d h k = grind arith

-- With a factor between 75 and 125 hundredths a delay lies between three quarters of the capped
-- backoff and five quarters of the cap.
pub compute_delay_bounds :
    {E : Type 0} (attempt factor : ℕ) (config : RetryConfig E)
    → 75 ≤ factor
    → factor ≤ 125
    → (min (raw_delay config.strategy config.base_delay attempt) config.max_delay * 75
        ≤ compute_delay attempt config factor)
      × (compute_delay attempt config factor ≤ config.max_delay * 125)
unfolding compute_delay
compute_delay_bounds attempt factor config h k =
    let delay = min (raw_delay config.strategy config.base_delay attempt) config.max_delay in
    ground (
      arith,
      mul_mono delay delay 75 factor,
      mul_mono delay config.max_delay factor 125,
      mul_mono delay config.max_delay 100 125,
      mul_mono delay delay 75 100,
    )
