-- ===== src/RateLimiter/Cleanup.antt =====
-- proxy/app/shared/rate_limiter.py: `cleanup_expired`, which drops the buckets not used for a time.
use rag_system.Base.{
  ℕ, ◌-◌, ◌*◌, ◌≤◌, true, String, Option, some, none, [], ◌∷◌, ◌≡◌, refl, ltb, if◌then◌else◌, arith,
  eq_iff, str_eq, Option-cases, Bool-cases, inl, inr, ap, sym, ◌∙◌,
}
use rag_system.Base.Dict
use rag_system.Base.Dict.{Dict}
use rag_system.RateLimiter.{
  TokenBucket, RateLimiter, one_token, refill, is_allowed, fresh_buckets, cleanup_expired,
}
use rag_system.RateLimiter.Buckets.{mul_mono, IsSound, found, available}
use rag_system.RateLimiter.Requests.{answer, is_allowed-answer}

abbrev pub kept : ℕ → ℕ → Option TokenBucket → Option TokenBucket
kept max_age now none = none
kept max_age now (some b) = if ltb max_age (now - b.last_refill) then none else some b

get-fresh_buckets :
    (max_age now : ℕ) (k : String) (d : Dict TokenBucket)
    → Dict.Distinct d
    → Dict.get k (fresh_buckets max_age now d) ≡ kept max_age now (Dict.get k d)
unfolding Dict.get fresh_buckets
get-fresh_buckets max_age now k [] h = refl
get-fresh_buckets max_age now k ((j, b) ∷ d) (single, h) = elim (Bool-cases (str_eq j k)) [
  | inl same ↦
      let gone : Dict.get k d ≡ none =
        ap (λ i. Dict.get i d) (sym ((eq_iff j k).0 same)) ∙ single in
      ground (arith, same, gone, get-fresh_buckets max_age now k d h)
  | inr other ↦ ground (arith, other, get-fresh_buckets max_age now k d h)
]

fresh_buckets-Distinct :
    (max_age now : ℕ) (d : Dict TokenBucket)
    → Dict.Distinct d
    → Dict.Distinct (fresh_buckets max_age now d)
unfolding fresh_buckets
fresh_buckets-Distinct max_age now [] h = tt
fresh_buckets-Distinct max_age now ((j, b) ∷ d) (single, h) =
    elim (Bool-cases (ltb max_age (now - b.last_refill))) [
      | inl old ↦ rw old (fresh_buckets-Distinct max_age now d h)
      | inr young ↦ rw young (
        get-fresh_buckets max_age now j d h ∙ ap (kept max_age now) single,
        fresh_buckets-Distinct max_age now d h,
      )
    ]

kept-some :
    (max_age now : ℕ) (o : Option TokenBucket) (b : TokenBucket)
    → kept max_age now o ≡ some b
    → o ≡ some b
kept-some max_age now none b p = p
kept-some max_age now (some c) b p = ground (arith, p)

pub cleanup_expired-IsSound :
    (max_age now : ℕ) (l : RateLimiter) → IsSound l → IsSound (cleanup_expired max_age now l)
unfolding cleanup_expired
cleanup_expired-IsSound max_age now l (uniform, distinct) = (
  λ k b p. uniform k b (
      kept-some max_age now (Dict.get k l.buckets) b
        (sym (get-fresh_buckets max_age now k l.buckets distinct) ∙ p)),
  fresh_buckets-Distinct max_age now l.buckets distinct,
)

module _ (second : ℕ) where
  -- A bucket that was idle so long is full again.
  full_again :
      (max_age before now : ℕ) (b : TokenBucket)
      → b.burst * one_token second ≤ max_age * b.rate
      → ltb max_age (before - b.last_refill) ≡ true
      → before ≤ now
      → (refill second now b).tokens ≡ b.burst * one_token second
  unfolding refill
  full_again max_age before now b enough old h =
      ground (arith, mul_mono max_age (now - b.last_refill) b.rate)

  pub available-cleanup_expired :
      (max_age before : ℕ) (k : String) (now : ℕ) (l : RateLimiter)
      → IsSound l
      → l.burst * one_token second ≤ max_age * l.rate_per_minute
      → before ≤ now
      → available second k now (cleanup_expired max_age before l) ≡ available second k now l
  unfolding cleanup_expired available found
  available-cleanup_expired max_age before k now l (uniform, distinct) enough h =
      let left = get-fresh_buckets max_age before k l.buckets distinct in
      elim (Option-cases (Dict.get k l.buckets)) [
        | inl p ↦ ground (arith, left, p)
        | inr (b, p) ↦
            let (r, c) = uniform k b p in
            ground (arith, left, p, r, c, full_again max_age before now b)
      ]

  -- No request can tell that a cleanup took place before it, where an idle bucket fills up within
  -- `max_age`.
  pub is_allowed-cleanup_expired :
      (max_age before : ℕ) (k : String) (now : ℕ) (l : RateLimiter)
      → IsSound l
      → l.burst * one_token second ≤ max_age * l.rate_per_minute
      → before ≤ now
      → (is_allowed second k now (cleanup_expired max_age before l)).0
        ≡ (is_allowed second k now l).0
  unfolding cleanup_expired
  is_allowed-cleanup_expired max_age before k now l sound enough h =
      let l' = cleanup_expired max_age before l in
      is_allowed-answer second k now l' (cleanup_expired-IsSound max_age before l sound)
      ∙ ap (answer second l.rate_per_minute)
          (available-cleanup_expired max_age before k now l sound enough h)
      ∙ sym (is_allowed-answer second k now l sound)
