-- ===== src/RateLimiter/Requests.antt =====
-- proxy/app/shared/rate_limiter.py: `is_allowed`, its answer from what is available, and what it
-- leaves for the key and for the others.
use rag_system.Base.{
  ℕ, ◌+◌, ◌-◌, ◌*◌, ◌≤◌, min, false, String, some, ◌≡◌, refl, leb, if◌then◌else◌, arith, eq_iff,
  str_eq, Option-cases, Bool-cases, inl, inr, ap,
}
use rag_system.Base.Dict
use rag_system.Base.Dict.{Dict, get-put}
use rag_system.RateLimiter.{
  TokenBucket, RateLimiter, Consumed, allowed, denied, zero_division, one_token, new_bucket, refill,
  consume, get_bucket, is_allowed,
}
use rag_system.RateLimiter.Buckets.{Uniform, IsSound, available, available-some, available_same}

module _ (second : ℕ) where
  -- The answer to one request, from what it finds.
  unfoldable pub answer : ℕ → ℕ → Consumed
  answer rate here =
      if leb (one_token second) here
      then allowed
      else if leb rate 0
      then zero_division
      else denied (one_token second - here)

  abbrev pub cost : Consumed → ℕ
  cost allowed = one_token second
  cost (denied lacking) = 0
  cost zero_division = 0

  -- What a request leaves in each bucket.
  get-is_allowed :
      (key k : String) (now : ℕ) (l : RateLimiter)
      → Dict.get k (is_allowed second key now l).1.buckets ≡ (
          if str_eq key k
          then some (consume second 1 now (get_bucket second key now l).0).1
          else Dict.get k l.buckets)
  unfolding is_allowed get_bucket
  get-is_allowed key k now l = elim (Option-cases (Dict.get key l.buckets)) [
    | inl p ↦
        let b = new_bucket second l.rate_per_minute l.burst now in
        ground (
          arith,
          p,
          get-put key k (consume second 1 now b).1 (Dict.put key b l.buckets),
          get-put key k b l.buckets,
        )
    | inr (b, p) ↦ ground (arith, p, get-put key k (consume second 1 now b).1 l.buckets)
  ]

  pub is_allowed_fields :
      (key : String) (now : ℕ) (l : RateLimiter)
      → ((is_allowed second key now l).1.rate_per_minute ≡ l.rate_per_minute)
        × ((is_allowed second key now l).1.burst ≡ l.burst)
  unfolding is_allowed get_bucket
  is_allowed_fields key now l = elim (Option-cases (Dict.get key l.buckets)) [
    | inl p ↦ ground (arith, p)
    | inr (b, p) ↦ ground (arith, p)
  ]

  -- The bucket that a request uses.
  get_bucket_fields :
      (key : String) (now : ℕ) (l : RateLimiter)
      → IsSound l
      → let (b, _) = get_bucket second key now l in
        (b.rate ≡ l.rate_per_minute)
        × (b.burst ≡ l.burst)
        × ((refill second now b).tokens ≡ available second key now l)
  unfolding get_bucket new_bucket available refill
  get_bucket_fields key now l sound = elim (Option-cases (Dict.get key l.buckets)) [
    | inl p ↦ ground (arith, p)
    | inr (b, p) ↦ let (r, c) = sound.0 key b p in ground (arith, p, r, c)
  ]

  consume_lem :
      (now : ℕ) (b : TokenBucket)
      → let here = (refill second now b).tokens in
        let (answered, b') = consume second 1 now b in
        (answered ≡ answer b.rate here)
        × ((refill second now b').tokens + cost answered ≡ here)
        × (b'.rate ≡ b.rate)
        × (b'.burst ≡ b.burst)
        × (b'.last_refill ≡ now)
  unfolding consume refill answer
  consume_lem now b = ground arith

  is_allowed-consume :
      (key : String) (now : ℕ) (l : RateLimiter)
      → (is_allowed second key now l).0 ≡ (consume second 1 now (get_bucket second key now l).0).0
  unfolding is_allowed
  is_allowed-consume key now l = refl

  pub is_allowed-answer :
      (key : String) (now : ℕ) (l : RateLimiter)
      → IsSound l
      → (is_allowed second key now l).0 ≡ answer l.rate_per_minute (available second key now l)
  unfolding is_allowed
  is_allowed-answer key now l sound =
      let (b, _) = get_bucket second key now l in
      let e = (consume_lem now b).0 in
      let (r, _, t) = get_bucket_fields key now l sound in ground (arith, e, r, t)

  is_allowed-Uniform :
      (key : String) (now : ℕ) (l : RateLimiter)
      → IsSound l
      → let l' = (is_allowed second key now l).1 in Uniform l'.rate_per_minute l'.burst l'.buckets
  is_allowed-Uniform key now l sound k b p =
      let (used, _) = get_bucket second key now l in
      ground (
        arith,
        p,
        sound.0 k b,
        get-is_allowed key k now l,
        consume_lem now used,
        get_bucket_fields key now l sound,
        is_allowed_fields key now l,
      )

  is_allowed-Distinct :
      (key : String) (now : ℕ) (l : RateLimiter)
      → Dict.Distinct l.buckets
      → Dict.Distinct (is_allowed second key now l).1.buckets
  unfolding is_allowed get_bucket
  is_allowed-Distinct key now l h = elim (Option-cases (Dict.get key l.buckets)) [
    | inl p ↦
        rw (p, is_allowed, get_bucket)
          (Dict.put-Distinct key _ _ (Dict.put-Distinct key _ l.buckets h))
    | inr (b, p) ↦ rw (p, is_allowed, get_bucket) (Dict.put-Distinct key _ l.buckets h)
  ]

  pub is_allowed-IsSound :
      (key : String) (now : ℕ) (l : RateLimiter)
      → IsSound l
      → IsSound (is_allowed second key now l).1
  is_allowed-IsSound key now l sound =
      (is_allowed-Uniform key now l sound, is_allowed-Distinct key now l sound.1)

  pub available-is_allowed :
      (key k : String) (now : ℕ) (l : RateLimiter)
      → IsSound l
      → available second k now (is_allowed second key now l).1
          + (if str_eq key k then cost (is_allowed second key now l).0 else 0)
        ≡ available second k now l
  available-is_allowed key k now l sound =
      let (used, _) = get_bucket second key now l in
      let there = get-is_allowed key k now l in
      let after = (is_allowed second key now l).1 in
      elim (Bool-cases (str_eq key k)) [
        | inl same ↦
            let key_k : key ≡ k = (eq_iff key k).0 same in
            ground (
              arith,
              same,
              there,
              is_allowed-consume key now l,
              ap (λ j. available second j now l) key_k,
              available-some second k now after (consume second 1 now used).1,
              consume_lem now used,
              get_bucket_fields key now l sound,
            )
        | inr other ↦
            ground (
              arith,
              other,
              there,
              is_allowed_fields key now l,
              available_same second k now l after,
            )
      ]

  pub available-other :
      (key k : String) (now later : ℕ) (l : RateLimiter)
      → str_eq key k ≡ false
      → available second k later (is_allowed second key now l).1 ≡ available second k later l
  available-other key k now later l other =
      available_same second k later l (is_allowed second key now l).1
        (ground (arith, get-is_allowed key k now l)) (is_allowed_fields key now l).1

  -- What a later request finds, when nothing else used the bucket.
  pub available-after :
      (k : String) (now later : ℕ) (l : RateLimiter)
      → IsSound l
      → available second k later (is_allowed second k now l).1
        ≡ min (l.burst * one_token second) (
            available second k now (is_allowed second k now l).1
            + (later - now) * l.rate_per_minute)
  unfolding refill
  available-after k now later l sound =
      let (used, _) = get_bucket second k now l in
      let b = (consume second 1 now used).1 in
      let after = (is_allowed second k now l).1 in
      let there : Dict.get k after.buckets ≡ some b =
        ground (arith, eq_iff k k, get-is_allowed k k now l) in
      let capped : b.tokens ≤ b.burst * one_token second = unfold consume in ground arith in
      ground (
        arith,
        capped,
        available-some second k now after b there,
        available-some second k later after b there,
        consume_lem now used,
        get_bucket_fields k now l sound,
      )
