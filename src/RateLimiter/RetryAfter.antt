-- ===== src/RateLimiter/RetryAfter.antt =====
-- proxy/app/shared/rate_limiter.py: the middleware's Retry-After.
use rag_system.Base.{
  ℕ, ◌+◌, ◌-◌, ◌*◌, ◌/◌, ◌%◌, ◌≤◌, String, List, ◌≡◌, refl, eq_iff, arith, ap, ◌∙◌, ◌⊎◌, inl, inr,
  [], ◌∷◌,
}
use rag_system.RateLimiter.{
  RateLimiter, Consumed, allowed, denied, zero_division, one_token, is_allowed, retry_seconds,
  Request, extract_key, passed_on, too_many_requests, dispatch,
}
use rag_system.RateLimiter.Buckets.{IsSound, available, mul_mono}
use rag_system.RateLimiter.Requests.{
  available-is_allowed, is_allowed-answer, is_allowed_fields, is_allowed-IsSound, available-after,
  answer,
}
use rag_system.RateLimiter.Limits.{
  Event, Ordered, end, run, step, Quiet, available-run, step_fields, step-IsSound,
}
use mathlib.Core.Path.{subst}
use native.Mathlib.Omega.{div_any, mod_cases}

-- The whole seconds of the header cover what is lacking.
retry_seconds_cover :
    (second rate lacking : ℕ)
    → 1 ≤ rate * second
    → lacking ≤ retry_seconds second rate lacking * second * rate
unfolding retry_seconds
retry_seconds_cover second rate lacking h =
    let unit = rate * second in
    let q = lacking / unit in
    let r = lacking % unit in
    let whole : lacking ≤ (q + 1) * unit =
      grind (arith, div_any lacking unit, mod_cases lacking unit) in
    grind arith

rate_same :
    (second max_age : ℕ) (es : List Event) (l : RateLimiter)
    → (run second max_age es l).rate_per_minute ≡ l.rate_per_minute
rate_same second max_age [] l = refl
rate_same second max_age (e ∷ es) l =
    rate_same second max_age es (step second max_age e l) ∙ (step_fields second max_age e l).0

run-IsSound :
    (second max_age : ℕ) (es : List Event) (l : RateLimiter)
    → IsSound l
    → IsSound (run second max_age es l)
run-IsSound second max_age [] l h = h
run-IsSound second max_age (e ∷ es) l h =
    run-IsSound second max_age es (step second max_age e l) (step-IsSound second max_age e l h)

-- A refusal, and the same key later with nothing else from it in between.
module _ (second max_age : ℕ) (k : String) (now later lacking : ℕ) (es : List Event)
    (l : RateLimiter) where
  abbrev asked : RateLimiter
  asked = (is_allowed second k now l).1

  -- The refusal says how much is lacking.
  refused :
      IsSound l
      → (is_allowed second k now l).0 ≡ denied lacking
      → (1 ≤ l.rate_per_minute) × (available second k now asked + lacking ≡ one_token second)
  unfolding answer
  refused sound p = ground (
    arith,
    p,
    eq_iff k k,
    is_allowed-answer second k now l sound,
    available-is_allowed second k k now l sound,
  )

  enough_later :
      IsSound l
      → 1 ≤ l.burst
      → 1 ≤ second
      → (is_allowed second k now l).0 ≡ denied lacking
      → now + retry_seconds second l.rate_per_minute lacking * second ≤ later
      → one_token second ≤ available second k later asked
  enough_later sound one tick p wait =
      let (r, a) = refused sound p in
      let s = retry_seconds second l.rate_per_minute lacking in
      ground (
        arith,
        a,
        available-after second k now later l sound,
        retry_seconds_cover second l.rate_per_minute lacking (grind arith),
        mul_mono (s * second) (later - now) l.rate_per_minute,
        mul_mono 1 l.burst (one_token second),
      )

  allowed_later :
      IsSound l
      → 1 ≤ l.burst
      → 1 ≤ second
      → l.burst * one_token second ≤ max_age * l.rate_per_minute
      → (is_allowed second k now l).0 ≡ denied lacking
      → Quiet second max_age k es
      → Ordered now es
      → end now es ≤ later
      → now + retry_seconds second l.rate_per_minute lacking * second ≤ later
      → (is_allowed second k later (run second max_age es asked)).0 ≡ allowed
  unfolding answer
  allowed_later sound one tick enough p quiet h over wait =
      let after = run second max_age es asked in
      let good = is_allowed-IsSound second k now l sound in
      let (r, b) = is_allowed_fields second k now l in
      ground (
        arith,
        enough_later sound one tick p wait,
        available-run second max_age k now later es asked good (ground (arith, r, b)) quiet h over,
        is_allowed-answer second k later after (run-IsSound second max_age es asked good),
      )

module _ {R : Type 0} (second trusted : ℕ) (call_next : Request → R) where
  Consumed-cases :
      (c : Consumed) → (c ≡ allowed) ⊎ (c ≡ zero_division) ⊎ ((lacking : ℕ) × (c ≡ denied lacking))
  Consumed-cases allowed = inl refl
  Consumed-cases zero_division = inr (inl refl)
  Consumed-cases (denied lacking) = inr (inr (lacking, refl))

  dispatch_denied :
      (r : Request) (now seconds : ℕ) (l : RateLimiter)
      → (dispatch second trusted call_next r now l).0 ≡ too_many_requests seconds
      → (lacking : ℕ) × ((is_allowed second (extract_key trusted r) now l).0 ≡ denied lacking)
        × (seconds ≡ retry_seconds second l.rate_per_minute lacking)
        × ((dispatch second trusted call_next r now l).1
            ≡ (is_allowed second (extract_key trusted r) now l).1)
  unfolding dispatch
  dispatch_denied r now seconds l h =
      elim (Consumed-cases (is_allowed second (extract_key trusted r) now l).0) [
        | inl p ↦ ground (arith, p)
        | inr (inl p) ↦ ground (arith, p)
        | inr (inr (lacking, p)) ↦ (lacking, p, ground (arith, p), rw (p, dispatch) refl)
      ]

  pub dispatch_allowed :
      (r : Request) (now : ℕ) (l : RateLimiter)
      → (is_allowed second (extract_key trusted r) now l).0 ≡ allowed
      → (dispatch second trusted call_next r now l).0 ≡ passed_on (call_next r)
  unfolding dispatch
  dispatch_allowed r now l p = ground (arith, p)

  -- A request that was refused with a Retry-After of so many seconds passes when its client comes
  -- back after that time, if the key sent no other request in between, whatever the other keys and
  -- the cleanup do, where the burst is at least one and `max_age` long enough for a bucket to fill up.
  pub retry_after_suffices :
      (max_age : ℕ) (r : Request) (now later seconds : ℕ) (es : List Event) (l : RateLimiter)
      → IsSound l
      → 1 ≤ l.burst
      → 1 ≤ second
      → l.burst * one_token second ≤ max_age * l.rate_per_minute
      → let (reply, l') = dispatch second trusted call_next r now l in
        reply ≡ too_many_requests seconds
        → Quiet second max_age (extract_key trusted r) es
        → Ordered now es
        → end now es ≤ later
        → now + seconds * second ≤ later
        → (dispatch second trusted call_next r later (run second max_age es l')).0
          ≡ passed_on (call_next r)
  retry_after_suffices max_age r now later seconds es l sound one tick enough p quiet h over wait =
      let key = extract_key trusted r in
      let (lacking, denied_now, s, after) = dispatch_denied r now seconds l p in
      let waited : now + retry_seconds second l.rate_per_minute lacking * second ≤ later =
        subst (λ n. now + n * second ≤ later) s wait in
      dispatch_allowed r later (run second max_age es (dispatch second trusted call_next r now l).1)
        (ap (λ x. (is_allowed second key later (run second max_age es x)).0) after
          ∙ allowed_later second max_age key now later lacking es l sound one tick enough denied_now
              quiet h over waited)
