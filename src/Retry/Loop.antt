-- ===== src/Retry/Loop.antt =====
-- proxy/app/shared/retry.py: `sync_retry` and `_record_circuit_breaker`, over the dictionary of
-- breakers of circuit_breaker.py.
use rag_system.Base.{
  ℕ, zero, suc, ◌+◌, ◌*◌, Bool, true, false, String, Option, none, some, List, [], ◌∷◌, ltb,
  if◌then◌else◌,
}
use rag_system.Base.Dict
use rag_system.Base.Dict.{Dict}
use rag_system.Breaker.{CircuitBreaker, is_opened, read_state, success, failure}
use rag_system.Breaker.Registry.{get_breaker}
use rag_system.Retry.Delay.{RetryConfig, compute_delay}

-- How one call of the function ends.
pub data Attempt (A E : Type 0) : Type 0 where
  returned : A → Attempt A E
  raised : E → Attempt A E

-- How `sync_retry` ends: with the value, with `RetryExhaustedError` (the number of attempts and
-- the last error, which is none where no attempt was made), with the exception itself, or with
-- `CircuitBreakerOpenError`.
pub data Ending (A E : Type 0) : Type 0 where
  value : A → Ending A E
  exhausted : ℕ → Option E → Ending A E
  reraised : E → Ending A E
  circuit_open : Ending A E

-- What a run leaves: its ending, the delays that it slept, its number of calls, the breakers.
pub record Run (A E : Type 0) : Type 0 where
  pub ending : Ending A E
  pub delays : List ℕ
  pub calls : ℕ
  pub breakers : Dict CircuitBreaker

-- `isinstance(exc, config.retryable_exceptions)`, where the tuple is not empty
unfoldable pub is_retryable : {E : Type 0} → E → RetryConfig E → Bool
is_retryable exc config = elim config.retryable_exceptions [
  | none ↦ true
  | some is_instance ↦ is_instance exc
]

-- What the world gives to a run: the ticks of a second, the ends of the calls, the two clock
-- readings behind each call and the jitter of each attempt.
pub record World (A E : Type 0) : Type 0 where
  pub second : ℕ
  pub fn : ℕ → Attempt A E
  pub clock : ℕ → ℕ × ℕ
  pub jitter_of : ℕ → ℕ

-- `get_breaker(name)` by its defaults, and a change of the breaker that it returns
unfoldable pub with_breaker :
    ℕ → String → (CircuitBreaker → CircuitBreaker) → Dict CircuitBreaker → Dict CircuitBreaker
unfolding get_breaker
with_breaker second name change d =
    let (b, d') = get_breaker name 5 (30 * second) 2 d in Dict.put name (change b) d'

unfoldable pub record_circuit_breaker :
    ℕ → String → Bool → ℕ × ℕ → Dict CircuitBreaker → Dict CircuitBreaker
unfolding with_breaker
record_circuit_breaker second name succeeded (now, later) d =
    with_breaker second name (λ b. if succeeded then success b else failure now later b) d

-- `if config.circuit_breaker_name: _record_circuit_breaker(...)`
unfoldable pub record_if_named :
    ℕ → Option String → Bool → ℕ × ℕ → Dict CircuitBreaker → Dict CircuitBreaker
unfolding record_circuit_breaker
record_if_named second none succeeded times d = d
record_if_named second (some name) succeeded times d =
    record_circuit_breaker second name succeeded times d

module _ {A E : Type 0} (config : RetryConfig E) (world : World A E) where
  -- The loop, with the attempts that are left and the number of the next one.
  unfoldable pub attempts : ℕ → ℕ → Dict CircuitBreaker → Run A E
  unfolding is_retryable record_if_named
  attempts zero attempt d = record {
    ending = exhausted config.max_attempts none;
    delays = [];
    calls = 0;
    breakers = d;
  }
  attempts (suc left) attempt d = elim (world.fn attempt) [
    | returned a ↦
        let d' =
          record_if_named world.second config.circuit_breaker_name true (world.clock attempt) d in
        record { ending = value a; delays = []; calls = 1; breakers = d' }
    | raised e ↦
        let d' =
          record_if_named world.second config.circuit_breaker_name false (world.clock attempt) d in
        let rest = attempts left (attempt + 1) d' in
        let delay = compute_delay attempt config (world.jitter_of attempt) in
        if is_retryable e config
        then (if ltb (attempt + 1) config.max_attempts
            then record rest { delays = delay ∷ rest.delays; calls = suc rest.calls }
            else record {
              ending = exhausted config.max_attempts (some e);
              delays = [];
              calls = 1;
              breakers = d';
            })
        else record { ending = reraised e; delays = []; calls = 1; breakers = d' }
  ]

  -- The check before the first attempt, at the time `now`: whether the breaker is open, after the
  -- property `state` has moved it on.
  unfoldable pub preflight : ℕ → Dict CircuitBreaker → Bool × Dict CircuitBreaker
  unfolding get_breaker read_state
  preflight now d = elim config.circuit_breaker_name [
    | none ↦ (false, d)
    | some name ↦
        let (b, d') = get_breaker name 5 (30 * world.second) 2 d in
        let (state, b') = read_state now b in (is_opened state, Dict.put name b' d')
  ]

  unfoldable pub sync_retry : ℕ → Dict CircuitBreaker → Run A E
  unfolding preflight attempts
  sync_retry now d =
      let (is_open, d') = preflight now d in
      if is_open
      then record { ending = circuit_open; delays = []; calls = 0; breakers = d' }
      else attempts config.max_attempts 0 d'
