-- ===== src/Breaker.antt =====
-- proxy/app/shared/circuit_breaker.py: the class `CircuitBreaker`. A time is a number of ticks of
-- `time.monotonic()`, an argument of each operation that reads the clock, one for each reading.
-- The two Prometheus series of a breaker are fields of its record. Logging is left out.
pub mod Registry
pub mod Invariant
pub mod Admission
pub mod Probes
mod Tests
use rag_system.Base.{ℕ, ◌+◌, String, Bool, true, false, ◌&&◌, leb, if◌then◌else◌}

-- `opened` is `State.OPEN`.
pub data State : Type 0 where
  closed opened half_open : State

unfoldable pub metric_value : State → ℕ
metric_value closed = 0
metric_value opened = 1
metric_value half_open = 2

abbrev pub is_closed : State → Bool
is_closed closed = true
is_closed _ = false

abbrev pub is_opened : State → Bool
is_opened opened = true
is_opened _ = false

abbrev pub is_half_open : State → Bool
is_half_open half_open = true
is_half_open _ = false

pub record CircuitBreaker : Type 0 where
  pub name : String
  pub failure_threshold : ℕ
  pub cooldown_seconds : ℕ
  pub half_open_max : ℕ
  pub state : State
  pub failure_count : ℕ
  pub last_failure_time : ℕ
  pub half_open_calls : ℕ
  pub opened_at : ℕ
  -- circuit_breaker_state{name} and circuit_breaker_failures_total{name}
  pub gauge : ℕ
  pub failures_total : ℕ

-- `__init__`; the counter series starts at 0
unfoldable pub init : String → ℕ → ℕ → ℕ → CircuitBreaker
unfolding metric_value
init name failure_threshold cooldown_seconds half_open_max = record {
  name = name;
  failure_threshold = failure_threshold;
  cooldown_seconds = cooldown_seconds;
  half_open_max = half_open_max;
  state = closed;
  failure_count = 0;
  last_failure_time = 0;
  half_open_calls = 0;
  opened_at = 0;
  gauge = metric_value closed;
  failures_total = 0;
}

-- `elapsed >= cooldown_seconds`, with the subtraction moved to the other side
unfoldable pub maybe_transition : ℕ → CircuitBreaker → CircuitBreaker
unfolding metric_value
maybe_transition now b =
    if is_opened b.state && leb (b.opened_at + b.cooldown_seconds) now
    then record b { state = half_open; half_open_calls = 0; gauge = metric_value half_open }
    else b

-- the property `state`
unfoldable pub read_state : ℕ → CircuitBreaker → State × CircuitBreaker
unfolding maybe_transition
read_state now b = let b' = maybe_transition now b in (b'.state, b')

unfoldable pub transition : State → CircuitBreaker → CircuitBreaker
unfolding metric_value
transition new_state b = record b { state = new_state; gauge = metric_value new_state }

unfoldable pub success : CircuitBreaker → CircuitBreaker
unfolding transition
success b =
    let b' = record b { failure_count = 0 } in
    if is_closed b.state then b' else transition closed b'

-- The clock is read once for `_last_failure_time`, and again for `_opened_at`.
unfoldable pub failure : ℕ → ℕ → CircuitBreaker → CircuitBreaker
unfolding transition
failure now later b =
    let b' = record b {
      failure_count = b.failure_count + 1;
      last_failure_time = now;
      failures_total = b.failures_total + 1;
    } in
    if is_half_open b.state
    then transition opened (record b' { opened_at = later })
    else if is_closed b.state && leb b.failure_threshold (b.failure_count + 1)
    then transition opened (record b' { opened_at = later })
    else b'

-- Whether the call may go on; `false` is a raise of `CircuitBreakerOpenError`.
unfoldable pub check_and_enter : ℕ → CircuitBreaker → Bool × CircuitBreaker
unfolding read_state
check_and_enter now b =
    let (current_state, b') = read_state now b in
    if is_opened current_state
    then (false, b')
    else if is_half_open current_state
    then (if leb b'.half_open_max b'.half_open_calls
        then (false, b')
        else (true, record b' { half_open_calls = b'.half_open_calls + 1 }))
    else (true, b')

-- How a call ends: with a value, with `CircuitBreakerOpenError`, or with another exception.
pub data Outcome (A E : Type 0) : Type 0 where
  returned : A → Outcome A E
  open_error : Outcome A E
  raised : E → Outcome A E

module _ {A E : Type 0} where
  -- the `try` block's end, the clock read at `now` and `later` when the call fails
  unfoldable pub settle : ℕ → ℕ → Outcome A E × CircuitBreaker → Outcome A E × CircuitBreaker
  unfolding success failure
  settle now later (returned a, b) = (returned a, success b)
  settle now later (open_error, b) = (open_error, b)
  settle now later (raised e, b) = (raised e, failure now later b)

  -- `fn` may use the breaker itself, so it is a function of the breaker's state.
  unfoldable pub call_sync :
      ℕ
      → ℕ
      → ℕ
      → (CircuitBreaker → Outcome A E × CircuitBreaker)
      → CircuitBreaker
      → Outcome A E × CircuitBreaker
  unfolding check_and_enter settle
  call_sync entered now later fn b =
      let (allowed, b') = check_and_enter entered b in
      if allowed then settle now later (fn b') else (open_error, b')

  -- While `fn` is awaited, other tasks use the breaker: what they do to it is part of `fn`. The
  -- code for a coroutine function and for a plain one differs by the `await` alone.
  unfoldable pub call :
      ℕ
      → ℕ
      → ℕ
      → (CircuitBreaker → Outcome A E × CircuitBreaker)
      → CircuitBreaker
      → Outcome A E × CircuitBreaker
  unfolding check_and_enter settle
  call entered now later fn b =
      let (allowed, b') = check_and_enter entered b in
      if allowed then settle now later (fn b') else (open_error, b')
