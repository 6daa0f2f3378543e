-- ===== src/Retry/Async.antt =====
-- proxy/app/shared/retry.py: `async_retry`. Its awaits let other tasks run, which use the same
-- breakers.
use rag_system.Base.{
  ℕ, zero, suc, ◌+◌, true, false, none, some, [], ◌∷◌, ◌≡◌, refl, arith, ltb, if◌then◌else◌,
  Bool-cases, inl, inr,
}
use rag_system.Base.Dict.{Dict}
use rag_system.Breaker.{CircuitBreaker}
use rag_system.Retry.Delay.{RetryConfig, compute_delay}
use rag_system.Retry.Laws.{Attempt-cases}
use rag_system.Retry.Loop.{
  returned, raised, value, exhausted, reraised, circuit_open, Run, World, is_retryable,
  record_if_named, attempts, preflight, sync_retry,
}

-- `others n d` is what other tasks make of the breakers while attempt `n`, and the sleep before
-- it, are awaited.
module _ {A E : Type 0} (config : RetryConfig E) (world : World A E)
    (others : ℕ → Dict CircuitBreaker → Dict CircuitBreaker) where
  unfoldable pub async_attempts : ℕ → ℕ → Dict CircuitBreaker → Run A E
  unfolding is_retryable record_if_named
  async_attempts zero attempt d = record {
    ending = exhausted config.max_attempts none;
    delays = [];
    calls = 0;
    breakers = d;
  }
  async_attempts (suc left) attempt d = elim (world.fn attempt) [
    | returned a ↦
        let d' =
          record_if_named world.second config.circuit_breaker_name true (world.clock attempt)
            (others attempt d) in
        record { ending = value a; delays = []; calls = 1; breakers = d' }
    | raised e ↦
        let d' =
          record_if_named world.second config.circuit_breaker_name false (world.clock attempt)
            (others attempt d) in
        let rest = async_attempts left (attempt + 1) d' in
        let delay = compute_delay attempt config (world.jitter_of attempt) in
        if is_retryable e config
        then (if ltb (attempt + 1) config.max_attempts
            then record rest { delays = delay ∷ rest.delays; calls = suc rest.calls }
            else record {
              ending = exhausted config.max_attempts (some e);
              delays = [];
              calls = 1;
              breakers = d';
            })
        else record { ending = reraised e; delays = []; calls = 1; breakers = d' }
  ]

  unfoldable pub async_retry : ℕ → Dict CircuitBreaker → Run A E
  unfolding preflight async_attempts
  async_retry now d =
      let (is_open, d') = preflight config world now d in
      if is_open
      then record { ending = circuit_open; delays = []; calls = 0; breakers = d' }
      else async_attempts config.max_attempts 0 d'

  abbrev pub Alike : Run A E → Run A E → Type 0
  Alike r s = (r.ending ≡ s.ending) × (r.delays ≡ s.delays) × (r.calls ≡ s.calls)

  attempts-Alike :
      (left attempt : ℕ) (d d' : Dict CircuitBreaker)
      → Alike (async_attempts left attempt d) (attempts config world left attempt d')
  unfolding async_attempts attempts
  attempts-Alike zero attempt d d' = (refl, refl, refl)
  attempts-Alike (suc left) attempt d d' =
      let again = attempts-Alike left (attempt + 1) in
      elim (Attempt-cases (world.fn attempt)) [
        | inl (a, p) ↦ ground (arith, p)
        | inr (e, p) ↦
            let failed =
              record_if_named world.second config.circuit_breaker_name false
                (world.clock attempt) in
            ground (arith, p, again (failed (others attempt d)) (failed d'))
      ]

  -- Whatever other tasks do to the breakers while a run awaits, it ends as the synchronous one,
  -- with the same delays and the same number of calls: only the breakers may differ.
  pub async_retry_lem :
      (now : ℕ) (d : Dict CircuitBreaker)
      → let r = async_retry now d in
        let s = sync_retry config world now d in
        (r.ending ≡ s.ending) × (r.delays ≡ s.delays) × (r.calls ≡ s.calls)
  unfolding async_retry sync_retry
  async_retry_lem now d = elim (Bool-cases (preflight config world now d).0) [
    | inl p ↦ rw p (refl, refl, refl)
    | inr p ↦ rw p (
        attempts-Alike config.max_attempts 0 (preflight config world now d).1
          (preflight config world now d).1)
  ]
