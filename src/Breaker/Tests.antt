-- ===== src/Breaker/Tests.antt =====
-- Runs of the circuit breaker, and its theorems at concrete inputs.
use rag_system.Base.{◌≡◌, refl, List, [], ◌∷◌, arith}
use rag_system.Breaker.{CircuitBreaker, closed, opened, init, check_and_enter, failure}
use rag_system.Breaker.Invariant.{
  IsSound, init-IsSound, run, run-IsSound, enter, succeed, fail, Event, failures, failures_trip,
}

abbrev qdrant : CircuitBreaker
qdrant = init "qdrant" 2 30 2

-- The second failure, at time 6, opens it until 36.
abbrev tripped : CircuitBreaker
tripped = failure 6 6 (failure 5 5 qdrant)

trips : tripped.state ≡ opened
unfolding init failure
trips = refl

abbrev traffic : List Event
traffic = enter 1 ∷ fail 5 5 ∷ fail 6 6 ∷ enter 40 ∷ succeed ∷ []

run-traffic : (run traffic qdrant).state ≡ closed
unfolding run init
run-traffic = refl

run-IsSound_example : IsSound (run traffic qdrant)
run-IsSound_example = run-IsSound traffic qdrant (init-IsSound "qdrant" 2 30 2 (omega arith))

failures_trip_example :
    ((failures ((5, 5) ∷ (6, 6) ∷ []) qdrant).failure_count ≡ 2)
    × ((failures ((5, 5) ∷ (6, 6) ∷ []) qdrant).state ≡ opened)
unfolding init
failures_trip_example = failures_trip ((5, 5) ∷ (6, 6) ∷ []) qdrant refl (omega arith)

abbrev trial : CircuitBreaker
trial = (check_and_enter 36 tripped).1
