-- ===== src/Retry/Tests.antt =====
-- Runs of `sync_retry`, and its theorems at concrete inputs.
use rag_system.Base.{ℕ, zero, suc, ◌<◌, ◌≡◌, true, String, none, some, [], ◌∷◌, arith, refl}
use rag_system.Base.Dict
use rag_system.Base.Dict.{Dict}
use rag_system.Breaker.{CircuitBreaker, opened, init, failure}
use rag_system.Retry.Delay.{RetryConfig, exponential, compute_delay}
use rag_system.Retry.Loop.{Attempt, returned, raised, value, World, preflight, sync_retry}
use rag_system.Retry.Laws.{FailsAt, Ends, finished, sync_retry_runs}
use rag_system.Retry.Breakers.{sync_retry_trips}

abbrev plain : RetryConfig String
plain = record {
  max_attempts = 3;
  base_delay = 4;
  max_delay = 6;
  strategy = exponential;
  jitter = true;
  retryable_exceptions = none;
  circuit_breaker_name = none;
}

abbrev guarded : RetryConfig String
guarded = record plain { circuit_breaker_name = some "llm" }

-- The third call would succeed.
abbrev flaky : ℕ → Attempt ℕ String
flaky zero = raised "timeout"
flaky (suc zero) = raised "refused"
flaky (suc (suc i)) = returned 7

abbrev world : World ℕ String
world = record { second = 1; fn = flaky; clock = λ i. (i, i); jitter_of = λ i. 125 }

abbrev down : World ℕ String
down = record world { fn = λ i. raised "down" }

sync_retry-flaky :
    sync_retry plain world 0 []
    ≡ record { ending = value 7; delays = 500 ∷ 750 ∷ []; calls = 3; breakers = [] }
unfolding sync_retry compute_delay
sync_retry-flaky = refl

sync_retry_runs_example :
    (n : ℕ) × (n < 3)
    × ((i : ℕ) → i < n → FailsAt plain world i)
    × Ends plain world n
    × (sync_retry plain world 0 [] ≡ finished plain world n 0 n (preflight plain world 0 []).1)
unfolding preflight
sync_retry_runs_example = sync_retry_runs plain world 0 [] refl (omega arith)

abbrev llm : CircuitBreaker
llm = init "llm" 3 30 2

abbrev broken : CircuitBreaker
broken = failure 9 9 (init "llm" 1 30 2)

always_fails : (i : ℕ) → i < 3 → FailsAt guarded down i
unfolding sync_retry
always_fails i h = ("down", refl, refl)

sync_retry_trips_example :
    let run = sync_retry guarded down 0 (("llm", llm) ∷ []) in
    (run.calls ≡ 3)
    × ((b' : CircuitBreaker) × (Dict.get "llm" run.breakers ≡ some b')
        × (b'.failure_count ≡ 3)
        × (b'.state ≡ opened))
unfolding init Dict.get
sync_retry_trips_example =
    sync_retry_trips guarded down 0 "llm" llm (("llm", llm) ∷ []) refl refl refl (omega arith)
      (omega arith) always_fails
