-- ===== src/Retry/Breakers.antt =====
-- proxy/app/shared/retry.py together with circuit_breaker.py: an open breaker refuses the run, and
-- a run that fails throughout counts each of its failures.
use rag_system.Base.{
  ℕ, zero, suc, ◌+◌, ◌<◌, ◌≡◌, inl, inr, false, String, some, List, [], ◌∷◌, arith, length, refl,
  ◌∙◌, eq_iff, ap,
}
use rag_system.Base.Dict
use rag_system.Base.Dict.{Dict, get-put}
use rag_system.Breaker.{CircuitBreaker, closed, opened, failure}
use rag_system.Breaker.Invariant.{failures, failures_trip, trip_state}
use rag_system.Retry.Delay.{RetryConfig}
use rag_system.Retry.Loop.{circuit_open, World, record_if_named, preflight, sync_retry}
use rag_system.Retry.Laws.{FailsAt, failed, finished, Ends, sync_retry_runs}

module _ {A E : Type 0} (config : RetryConfig E) (world : World A E) where
  -- When its breaker is open and in its cooldown, a run ends with `CircuitBreakerOpenError`, has made
  -- no call, and leaves each breaker as it was.
  pub sync_retry_refused :
      (now : ℕ) (name other : String) (b : CircuitBreaker) (d : Dict CircuitBreaker)
      → config.circuit_breaker_name ≡ some name
      → Dict.get name d ≡ some b
      → b.state ≡ opened
      → now < b.opened_at + b.cooldown_seconds
      → let run = sync_retry config world now d in
        (run.ending ≡ circuit_open)
        × (run.calls ≡ 0)
        × (Dict.get other run.breakers ≡ Dict.get other d)
  unfolding sync_retry
  sync_retry_refused now name other b d p q r s =
      ground (arith, get-put name other b d, eq_iff name other)

  failed-step :
      (name : String) (times : ℕ × ℕ) (b : CircuitBreaker) (d : Dict CircuitBreaker)
      → config.circuit_breaker_name ≡ some name
      → Dict.get name d ≡ some b
      → Dict.get name (record_if_named world.second config.circuit_breaker_name false times d)
        ≡ some (failure times.0 times.1 b)
  unfolding record_if_named
  failed-step name times b d p q =
      ground (arith, get-put name name (failure times.0 times.1 b) d, eq_iff name name)

  abbrev readings : ℕ → ℕ → List (ℕ × ℕ)
  readings zero attempt = []
  readings (suc n) attempt = world.clock attempt ∷ readings n (attempt + 1)

  length-readings : (n attempt : ℕ) → length (readings n attempt) ≡ n
  length-readings zero attempt = refl
  length-readings (suc n) attempt = ap suc (length-readings n (attempt + 1))

  failed-breaker :
      (n attempt : ℕ) (name : String) (b : CircuitBreaker) (d : Dict CircuitBreaker)
      → config.circuit_breaker_name ≡ some name
      → Dict.get name d ≡ some b
      → Dict.get name (failed config world n attempt d) ≡ some (failures (readings n attempt) b)
  failed-breaker zero attempt name b d p q = q
  failed-breaker (suc n) attempt name b d p q =
      failed-breaker n (attempt + 1) name
        (failure (world.clock attempt).0 (world.clock attempt).1 b)
        (record_if_named world.second config.circuit_breaker_name false (world.clock attempt) d) p
        (failed-step name (world.clock attempt) b d p q)

  failed-suc :
      (n attempt last : ℕ) (d : Dict CircuitBreaker)
      → last ≡ attempt + n
      → record_if_named world.second config.circuit_breaker_name false
          (world.clock last)
          (failed config world n attempt d)
        ≡ failed config world (suc n) attempt d
  failed-suc zero attempt last d e =
      let e' : last ≡ attempt = omega arith in
      ap (λ l. record_if_named world.second config.circuit_breaker_name false (world.clock l) d) e'
  failed-suc (suc n) attempt last d e =
      failed-suc n (attempt + 1) last
        (record_if_named world.second config.circuit_breaker_name false (world.clock attempt) d)
        (omega arith)

  Ends-last :
      (n : ℕ)
      → n < config.max_attempts
      → FailsAt config world n
      → Ends config world n
      → n + 1 ≡ config.max_attempts
  Ends-last n h (e, p, q) (inl (a, r)) = cc
  Ends-last n h (e, p, q) (inr (inl (e', r, s))) = ground arith
  Ends-last n h f (inr (inr (e', r, s))) = s

  preflight_closed :
      (now : ℕ) (name : String) (b : CircuitBreaker) (d : Dict CircuitBreaker)
      → config.circuit_breaker_name ≡ some name
      → Dict.get name d ≡ some b
      → b.state ≡ closed
      → ((preflight config world now d).0 ≡ false)
        × (Dict.get name (preflight config world now d).1 ≡ some b)
  unfolding preflight
  preflight_closed now name b d p q r = ground (arith, get-put name name b d, eq_iff name name)

  finished-breakers :
      (n : ℕ) (d : Dict CircuitBreaker)
      → FailsAt config world n
      → (finished config world n 0 n d).breakers ≡ failed config world (suc n) 0 d
  finished-breakers n d (e, p, q) = rw p (failed-suc n 0 n d (omega arith))

  -- When every allowed attempt fails with a retried exception and the breaker was closed, the run
  -- makes every allowed call, the breaker's count rises by their number, and it is open
  -- exactly if that count has reached its threshold.
  pub sync_retry_trips :
      (now : ℕ) (name : String) (b : CircuitBreaker) (d : Dict CircuitBreaker)
      → config.circuit_breaker_name ≡ some name
      → Dict.get name d ≡ some b
      → b.state ≡ closed
      → b.failure_count < b.failure_threshold
      → 0 < config.max_attempts
      → ((i : ℕ) → i < config.max_attempts → FailsAt config world i)
      → let run = sync_retry config world now d in
        (run.calls ≡ config.max_attempts)
        × ((b' : CircuitBreaker) × (Dict.get name run.breakers ≡ some b')
            × (b'.failure_count ≡ b.failure_count + config.max_attempts)
            × (b'.state ≡ trip_state (b.failure_count + config.max_attempts) b.failure_threshold))
  sync_retry_trips now name b d p q shut below some_attempt fails =
      let (free, there) = preflight_closed now name b d p q shut in
      let d' = (preflight config world now d).1 in
      let (n, inside, before, ends, same) = sync_retry_runs config world now d free some_attempt in
      let all : n + 1 ≡ config.max_attempts = Ends-last n inside (fails n inside) ends in
      let ts = readings (suc n) 0 in
      let (counted, tripped) = failures_trip ts b shut below in
      let e : length ts ≡ config.max_attempts = omega (arith, length-readings (suc n) 0) in
      let found : Dict.get name (finished config world n 0 n d').breakers ≡ some (failures ts b) =
        ap (Dict.get name) (finished-breakers n d' (fails n inside))
        ∙ failed-breaker (suc n) 0 name b d' p there in
      rw same (all, (failures ts b, found, rw e at counted, rw e at tripped))
