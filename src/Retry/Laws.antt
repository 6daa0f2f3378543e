-- ===== src/Retry/Laws.antt =====
-- proxy/app/shared/retry.py: what a run of `sync_retry` returns, after how many calls and delays,
-- and what it does to its circuit breaker.
use rag_system.Base.{
  ℕ, zero, suc, ◌+◌, ◌≤◌, ◌<◌, ◌≡◌, Bool, true, false, some, List, [], ◌∷◌, if◌then◌else◌, arith,
  refl,
}
use native.Mathlib.Decide.{dec_lt, ℕ_discrete}
use mathlib.Core.Path.{subst}
use rag_system.Base.{◌⊎◌, inl, inr, Bool-cases}
use rag_system.Base.Dict.{Dict}
use rag_system.Breaker.{CircuitBreaker}
use rag_system.Retry.Delay.{RetryConfig, compute_delay}
use rag_system.Retry.Loop.{
  Attempt, returned, raised, Ending, value, exhausted, reraised, Run, World, is_retryable,
  record_if_named, attempts, preflight, sync_retry,
}

pub Attempt-cases :
    {A E : Type 0} (r : Attempt A E) → ((a : A) × (r ≡ returned a)) ⊎ ((e : E) × (r ≡ raised e))
Attempt-cases (returned a) = inl (a, refl)
Attempt-cases (raised e) = inr (e, refl)

module _ {A E : Type 0} (config : RetryConfig E) (world : World A E) where
  -- Attempt `i` fails with an exception that is retried.
  abbrev pub FailsAt : ℕ → Type 0
  FailsAt i = (e : E) × (world.fn i ≡ raised e) × (is_retryable e config ≡ true)

  -- The delays behind the attempts from `attempt` on, `n` of them.
  abbrev pub backoffs : ℕ → ℕ → List ℕ
  backoffs zero attempt = []
  backoffs (suc n) attempt =
      compute_delay attempt config (world.jitter_of attempt) ∷ backoffs n (attempt + 1)

  -- The breakers behind the failures of the attempts from `attempt` on, `n` of them.
  abbrev pub failed : ℕ → ℕ → Dict CircuitBreaker → Dict CircuitBreaker
  failed zero attempt d = d
  failed (suc n) attempt d =
      failed n (attempt + 1)
        (record_if_named world.second config.circuit_breaker_name false (world.clock attempt) d)

  attempts-step :
      (left attempt : ℕ) (d : Dict CircuitBreaker) (e : E)
      → world.fn attempt ≡ raised e
      → is_retryable e config ≡ true
      → attempt + 1 < config.max_attempts
      → let rest = attempts config world left (attempt + 1) (
          record_if_named world.second config.circuit_breaker_name false (world.clock attempt) d) in
        attempts config world (suc left) attempt d ≡ record rest {
          delays = compute_delay attempt config (world.jitter_of attempt) ∷ rest.delays;
          calls = suc rest.calls;
        }
  unfolding attempts
  attempts-step left attempt d e p q r = ground arith

  -- How the run ends when attempt `i`, with this end, is its last.
  abbrev pub ending_of : Attempt A E → Ending A E
  ending_of (returned a) = value a
  ending_of (raised e) =
      if is_retryable e config then exhausted config.max_attempts (some e) else reraised e

  abbrev pub succeeded : Attempt A E → Bool
  succeeded (returned a) = true
  succeeded (raised e) = false

  -- Attempt `i` is the last one: it returns, or its exception is not retried, or it is the last
  -- that the configuration allows.
  abbrev pub Ends : ℕ → Type 0
  Ends i =
      ((a : A) × (world.fn i ≡ returned a))
      ⊎ ((e : E) × (world.fn i ≡ raised e) × (is_retryable e config ≡ false))
      ⊎ ((e : E) × (world.fn i ≡ raised e) × (i + 1 ≡ config.max_attempts))

  -- The run whose attempts from `attempt` on fail `n` times and end with `last`.
  abbrev pub finished : ℕ → ℕ → ℕ → Dict CircuitBreaker → Run A E
  finished n attempt last d = record {
    ending = ending_of (world.fn last);
    delays = backoffs n attempt;
    calls = n + 1;
    breakers =
        record_if_named world.second config.circuit_breaker_name (succeeded (world.fn last))
          (world.clock last) (failed n attempt d);
  }

  attempts-last :
      (left attempt : ℕ) (d : Dict CircuitBreaker)
      → Ends attempt
      → attempts config world (suc left) attempt d ≡ finished 0 attempt attempt d
  unfolding attempts
  attempts-last left attempt d (inl (a, p)) = ground arith
  attempts-last left attempt d (inr (inl (e, p, q))) = ground arith
  attempts-last left attempt d (inr (inr (e, p, q))) = ground arith

  abbrev pub Finishes : ℕ → ℕ → Dict CircuitBreaker → Type 0
  Finishes left attempt d =
      (n : ℕ) × (last : ℕ) × (last ≡ attempt + n)
      × (last < config.max_attempts)
      × ((i : ℕ) → attempt ≤ i → i < last → FailsAt i)
      × Ends last
      × (attempts config world left attempt d ≡ finished n attempt last d)

  Finishes-stop :
      (left attempt : ℕ) (d : Dict CircuitBreaker)
      → attempt < config.max_attempts
      → Ends attempt
      → Finishes (suc left) attempt d
  Finishes-stop left attempt d p e =
      (0, attempt, omega arith, p, λ i x y. absurd (omega arith), e, attempts-last left attempt d e)

  Finishes-retry :
      (left attempt : ℕ) (d : Dict CircuitBreaker) (e : E)
      → world.fn attempt ≡ raised e
      → is_retryable e config ≡ true
      → attempt + 1 < config.max_attempts
      → Finishes left
          (attempt + 1)
          (record_if_named world.second config.circuit_breaker_name false (world.clock attempt) d)
      → Finishes (suc left) attempt d
  Finishes-retry left attempt d e p q r (n, last, at, below, before, ends, same) = (
    suc n,
    last,
    omega arith,
    below,
    λ i x y. elim (ℕ_discrete attempt i) [
      | yes here ↦ subst FailsAt here (e, p, q)
      | no there ↦ before i (omega arith) y
    ],
    ends,
    ground (arith, attempts-step left attempt d e p q r, same),
  )

  attempts-Finishes :
      (left attempt : ℕ) (d : Dict CircuitBreaker)
      → attempt + left ≡ config.max_attempts
      → 0 < left
      → Finishes left attempt d
  attempts-Finishes zero attempt d p q = absurd (omega arith)
  attempts-Finishes (suc left) attempt d p q =
      let d' =
        record_if_named world.second config.circuit_breaker_name false (world.clock attempt) d in
      elim (Attempt-cases (world.fn attempt)) [
        | inl (a, e) ↦ Finishes-stop left attempt d (omega arith) (inl (a, e))
        | inr (x, e) ↦ elim (Bool-cases (is_retryable x config)) [
          | inr fatal ↦ Finishes-stop left attempt d (omega arith) (inr (inl (x, e, fatal)))
          | inl again ↦ elim (dec_lt (attempt + 1) config.max_attempts) [
            | no over ↦ Finishes-stop left attempt d (omega arith) (inr (inr (x, e, omega arith)))
            | yes more ↦
                Finishes-retry left attempt d x e again more
                  (attempts-Finishes left (attempt + 1) d' (omega arith) (omega arith))
          ]
        ]
      ]

  -- A run that is not refused by its breaker, and may make an attempt, makes some `n + 1` calls:
  -- the first `n` fail with retried exceptions, with the backoff of each slept behind it, and the
  -- last one returns, fails with another exception, or is the last that is allowed. The ending,
  -- the delays, the number of calls and the reports to the breaker are those of these calls.
  pub sync_retry_runs :
      (now : ℕ) (d : Dict CircuitBreaker)
      → (preflight config world now d).0 ≡ false
      → 0 < config.max_attempts
      → (n : ℕ) × (n < config.max_attempts)
        × ((i : ℕ) → i < n → FailsAt i)
        × Ends n
        × (sync_retry config world now d ≡ finished n 0 n (preflight config world now d).1)
  unfolding sync_retry
  sync_retry_runs now d free some_attempt =
      let (n, last, at, below, before, ends, same) =
        attempts-Finishes config.max_attempts 0 (preflight config world now d).1 (omega arith)
          some_attempt in
      let e : last ≡ n = omega arith in
      (
        n,
        omega arith,
        λ i p. before i (omega arith) (omega arith),
        subst Ends e ends,
        rw free (
            subst
              (λ l.
                attempts config world config.max_attempts 0 (preflight config world now d).1
                ≡ finished n 0 l (preflight config world now d).1)
              e same),
      )
