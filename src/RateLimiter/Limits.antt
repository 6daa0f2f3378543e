-- ===== src/RateLimiter/Limits.antt =====
-- proxy/app/shared/rate_limiter.py: what the limiter allows a key over a run of requests and
-- cleanups, and when a refused request may come back.
use rag_system.Base.{
  ℕ, ◌+◌, ◌-◌, ◌*◌, ◌≤◌, false, String, List, [], ◌∷◌, ◌≡◌, refl, if◌then◌else◌, arith, str_eq, ◌∙◌,
}
use rag_system.RateLimiter.{RateLimiter, allowed, one_token, is_allowed, cleanup_expired}
use rag_system.RateLimiter.Buckets.{IsSound, available, available-later, available-burst, distrib}
use rag_system.RateLimiter.Requests.{
  available-is_allowed, is_allowed_fields, is_allowed-IsSound, available-other,
}
use rag_system.RateLimiter.Cleanup.{cleanup_expired-IsSound, available-cleanup_expired}

pub data Event : Type 0 where
  ask : String → ℕ → Event
  clean : ℕ → Event

abbrev pub time : Event → ℕ
time (ask k t) = t
time (clean t) = t

-- The clock does not go back.
abbrev pub Ordered : ℕ → List Event → Type 0
Ordered now [] = Unit
Ordered now (e ∷ es) = (now ≤ time e) × Ordered (time e) es

abbrev pub end : ℕ → List Event → ℕ
end now [] = now
end now (e ∷ es) = end (time e) es

pub Ordered-end : (now : ℕ) (es : List Event) → Ordered now es → now ≤ end now es
Ordered-end now [] h = omega arith
Ordered-end now (e ∷ es) (h, hs) = omega (arith, Ordered-end (time e) es hs)

module _ (second max_age : ℕ) where
  abbrev pub step : Event → RateLimiter → RateLimiter
  step (ask k t) l = (is_allowed second k t l).1
  step (clean t) l = cleanup_expired max_age t l

  abbrev pub run : List Event → RateLimiter → RateLimiter
  run [] l = l
  run (e ∷ es) l = run es (step e l)

  abbrev pub is_granted : String → Event → RateLimiter → ℕ
  is_granted k (ask j t) l =
      if str_eq j k then elim (is_allowed second j t l).0 [ allowed ↦ 1 | _ ↦ 0 ] else 0
  is_granted k (clean t) l = 0

  -- How many requests of the key are allowed.
  abbrev pub granted : String → List Event → RateLimiter → ℕ
  granted k [] l = 0
  granted k (e ∷ es) l = is_granted k e l + granted k es (step e l)

  pub step_fields :
      (e : Event) (l : RateLimiter)
      → ((step e l).rate_per_minute ≡ l.rate_per_minute) × ((step e l).burst ≡ l.burst)
  unfolding cleanup_expired
  step_fields (ask k t) l = is_allowed_fields second k t l
  step_fields (clean t) l = (refl, refl)

  pub step-IsSound : (e : Event) (l : RateLimiter) → IsSound l → IsSound (step e l)
  step-IsSound (ask k t) l h = is_allowed-IsSound second k t l h
  step-IsSound (clean t) l h = cleanup_expired-IsSound max_age t l h

  -- A bucket that is full again after `max_age` makes the cleanup invisible.
  abbrev pub Enough : RateLimiter → Type 0
  Enough l = l.burst * one_token second ≤ max_age * l.rate_per_minute

  step-Enough : (e : Event) (l : RateLimiter) → Enough l → Enough (step e l)
  step-Enough e l enough = ground (arith, step_fields e l)

  step-available :
      (k : String) (e : Event) (l : RateLimiter)
      → IsSound l
      → Enough l
      → available second k (time e) (step e l) + is_granted k e l * one_token second
        ≡ available second k (time e) l
  step-available k (ask j t) l sound enough =
      ground (arith, available-is_allowed second j k t l sound)
  step-available k (clean t) l sound enough =
      ground (arith, available-cleanup_expired second max_age t k t l sound enough)

  granted-available :
      (k : String) (now : ℕ) (es : List Event) (l : RateLimiter)
      → IsSound l
      → Enough l
      → Ordered now es
      → granted k es l * one_token second
        ≤ available second k now l + (end now es - now) * l.rate_per_minute
  granted-available k now [] l sound enough h = omega arith
  granted-available k now (e ∷ es) l sound enough (h, hs) =
      let (r, b) = step_fields e l in
      let t = time e in
      let ended = end t es in
      ground (
        arith,
        r,
        h,
        distrib (is_granted k e l) (granted k es (step e l)) (one_token second),
        distrib (t - now) (ended - t) l.rate_per_minute,
        Ordered-end t es hs,
        step-available k e l sound enough,
        available-later second k now t l sound h,
        granted-available k t es (step e l) (step-IsSound e l sound) (step-Enough e l enough) hs,
      )

  -- Over any run of requests of all keys and of cleanups, one key is allowed no more than its
  -- burst and what its rate adds in the time, counted in parts of a token, where `max_age` is long
  -- enough for an idle bucket to fill up.
  pub granted_bounded :
      (k : String) (now : ℕ) (es : List Event) (l : RateLimiter)
      → IsSound l
      → l.burst * one_token second ≤ max_age * l.rate_per_minute
      → Ordered now es
      → granted k es l * one_token second
        ≤ l.burst * one_token second + (end now es - now) * l.rate_per_minute
  granted_bounded k now es l sound enough h =
      omega
        (arith, granted-available k now es l sound enough h, available-burst second k now l sound)

  -- No request of the key.
  abbrev pub Quiet : String → List Event → Type 0
  Quiet k [] = Unit
  Quiet k (ask j t ∷ es) = (str_eq j k ≡ false) × Quiet k es
  Quiet k (clean t ∷ es) = Quiet k es

  pub available-run :
      (k : String) (now later : ℕ) (es : List Event) (l : RateLimiter)
      → IsSound l
      → Enough l
      → Quiet k es
      → Ordered now es
      → end now es ≤ later
      → available second k later (run es l) ≡ available second k later l
  available-run k now later [] l sound enough quiet h over = refl
  available-run k now later (ask j t ∷ es) l sound enough (other, quiet) (h, hs) over =
      available-run k t later es (step (ask j t) l) (step-IsSound (ask j t) l sound)
        (step-Enough (ask j t) l enough) quiet hs over
      ∙ available-other second j k t later l other
  available-run k now later (clean t ∷ es) l sound enough quiet (h, hs) over =
      available-run k t later es (step (clean t) l) (step-IsSound (clean t) l sound)
        (step-Enough (clean t) l enough) quiet hs over
      ∙ available-cleanup_expired second max_age t k later l sound enough
          (omega (arith, Ordered-end t es hs))
