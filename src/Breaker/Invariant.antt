-- ===== src/Breaker/Invariant.antt =====
-- proxy/app/shared/circuit_breaker.py: what every use of a breaker keeps, its calls interleaved in
-- any order. An event is one atomic section of `call`: tasks switch only at its `await`.
use rag_system.Base.{
  ℕ, ◌+◌, ◌≤◌, ◌<◌, ◌≡◌, List, [], ◌∷◌, arith, ltb, length, if◌then◌else◌, String,
}
use native.Mathlib.Decide.{dec_lt}
use rag_system.Base.{sym, ◌∙◌}
use rag_system.Breaker.{
  CircuitBreaker, State, closed, opened, half_open, metric_value, init, success, failure,
  check_and_enter,
}

-- A call is admitted or rejected; an admitted one reports success or failure later, or never.
pub data Event : Type 0 where
  enter : ℕ → Event
  succeed : Event
  fail : ℕ → ℕ → Event

unfoldable pub step : Event → CircuitBreaker → CircuitBreaker
unfolding check_and_enter success failure
step (enter now) b = (check_and_enter now b).1
step succeed b = success b
step (fail now later) b = failure now later b

unfoldable pub run : List Event → CircuitBreaker → CircuitBreaker
unfolding step
run [] b = b
run (e ∷ es) b = run es (step e b)

-- The configuration is never written.
pub record SameConfig (b c : CircuitBreaker) : Type 0 where
  pub same_threshold : c.failure_threshold ≡ b.failure_threshold
  pub same_cooldown : c.cooldown_seconds ≡ b.cooldown_seconds
  pub same_max : c.half_open_max ≡ b.half_open_max

abbrev pub Counted : State → ℕ → ℕ → ℕ → ℕ → Type 0
Counted closed failures threshold calls most = failures < threshold
Counted opened failures threshold calls most = Unit
Counted half_open failures threshold calls most = calls ≤ most

-- The gauge shows the state, a closed breaker is below its threshold, and a half-open one has
-- admitted no more trial calls than it may.
pub record IsSound (b : CircuitBreaker) : Type 0 where
  pub shown : b.gauge ≡ metric_value b.state
  pub threshold_pos : 0 < b.failure_threshold
  pub counted :
      Counted b.state b.failure_count b.failure_threshold b.half_open_calls b.half_open_max

pub init-IsSound : (n : String) (f c h : ℕ) → 0 < f → IsSound (init n f c h)
unfolding init
init-IsSound n f c h p = ground arith

-- One event keeps a sound breaker sound.
step-IsSound : (e : Event) (b : CircuitBreaker) → IsSound b → IsSound (step e b)
unfolding step
step-IsSound (enter now) b h = ground arith
step-IsSound succeed b h = ground arith
step-IsSound (fail now later) b h = ground arith

-- Whatever the calls do and however they interleave, a sound breaker stays sound.
pub run-IsSound : (es : List Event) (b : CircuitBreaker) → IsSound b → IsSound (run es b)
unfolding run
run-IsSound [] b h = h
run-IsSound (e ∷ es) b h = run-IsSound es (step e b) (step-IsSound e b h)

pub step-SameConfig : (e : Event) (b : CircuitBreaker) → SameConfig b (step e b)
unfolding step
step-SameConfig (enter now) b = ground arith
step-SameConfig succeed b = ground arith
step-SameConfig (fail now later) b = ground arith

-- Consecutive failures of a closed breaker: `ts` are the two clock readings of each.
abbrev pub failures : List (ℕ × ℕ) → CircuitBreaker → CircuitBreaker
failures [] b = b
failures ((now, later) ∷ ts) b = failures ts (failure now later b)

abbrev pub trip_state : ℕ → ℕ → State
trip_state count threshold = if ltb count threshold then closed else opened

count-failures :
    (ts : List (ℕ × ℕ)) (b : CircuitBreaker)
    → (failures ts b).failure_count ≡ b.failure_count + length ts
count-failures [] b = omega arith
count-failures ((now, later) ∷ ts) b =
    let e : (failure now later b).failure_count ≡ b.failure_count + 1 =
      unfold failure in ground arith in
    omega (arith, count-failures ts (failure now later b), e)

failure-opened :
    (now later : ℕ) (b : CircuitBreaker) → b.state ≡ opened → (failure now later b).state ≡ opened
unfolding failure
failure-opened now later b h = ground arith

failures-opened :
    (ts : List (ℕ × ℕ)) (b : CircuitBreaker) → b.state ≡ opened → (failures ts b).state ≡ opened
failures-opened [] b h = h
failures-opened ((now, later) ∷ ts) b h =
    failures-opened ts (failure now later b) (failure-opened now later b h)

failure-below :
    (now later : ℕ) (b : CircuitBreaker)
    → b.state ≡ closed
    → b.failure_count + 1 < b.failure_threshold
    → ((failure now later b).state ≡ closed)
      × ((failure now later b).failure_count ≡ b.failure_count + 1)
      × ((failure now later b).failure_threshold ≡ b.failure_threshold)
unfolding failure
failure-below now later b h p = ground arith

failure-reached :
    (now later : ℕ) (b : CircuitBreaker)
    → b.state ≡ closed
    → b.failure_threshold ≤ b.failure_count + 1
    → (failure now later b).state ≡ opened
unfolding failure
failure-reached now later b h p = ground arith

trip_state-opened : (count threshold : ℕ) → threshold ≤ count → trip_state count threshold ≡ opened
trip_state-opened count threshold h = ground arith

state-failures :
    (ts : List (ℕ × ℕ)) (b : CircuitBreaker)
    → b.state ≡ closed
    → b.failure_count < b.failure_threshold
    → (failures ts b).state ≡ trip_state (b.failure_count + length ts) b.failure_threshold
state-failures [] b h p = ground arith
state-failures ((now, later) ∷ ts) b h p = elim (dec_lt (b.failure_count + 1) b.failure_threshold) [
  | yes q ↦
      let f = failure-below now later b h q in
      ground (arith, state-failures ts (failure now later b), f)
  | no q ↦
      failures-opened ts (failure now later b) (failure-reached now later b h (omega arith))
      ∙ sym (trip_state-opened _ _ (omega arith))
]

-- A closed breaker below its threshold counts every failure in a row, stays closed while the
-- count is below the threshold, and is open from the failure that reaches it on.
pub failures_trip :
    (ts : List (ℕ × ℕ)) (b : CircuitBreaker)
    → b.state ≡ closed
    → b.failure_count < b.failure_threshold
    → ((failures ts b).failure_count ≡ b.failure_count + length ts)
      × ((failures ts b).state ≡ trip_state (b.failure_count + length ts) b.failure_threshold)
failures_trip ts b h p = (count-failures ts b, state-failures ts b h p)
