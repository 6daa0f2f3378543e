-- ===== src/RateLimiter/Buckets.antt =====
-- proxy/app/shared/rate_limiter.py: what one request may find in the bucket of its key, and how
-- time, requests and the cleanup change it.
use rag_system.Base.{
  ℕ, ◌+◌, ◌-◌, ◌*◌, ◌≤◌, String, Option, some, none, ◌≡◌, arith, Option-cases, inl, inr, ap,
}
use rag_system.Base.Dict
use rag_system.Base.Dict.{Dict, get-put}
use rag_system.RateLimiter.{TokenBucket, RateLimiter, one_token, refill}

-- Every bucket has the limiter's rate and burst, and no key has two.
abbrev pub Uniform : ℕ → ℕ → Dict TokenBucket → Type 0
Uniform rate burst d =
    (k : String) (b : TokenBucket) → Dict.get k d ≡ some b → (b.rate ≡ rate) × (b.burst ≡ burst)

abbrev pub IsSound : RateLimiter → Type 0
IsSound l = Uniform l.rate_per_minute l.burst l.buckets × Dict.Distinct l.buckets

pub mul_mono : (a b c : ℕ) → a ≤ b → a * c ≤ b * c
mul_mono a b c h = grind arith

pub distrib : (a b c : ℕ) → (a + b) * c ≡ a * c + b * c
distrib a b c = omega arith

module _ (second : ℕ) where
  -- The parts of a token that a request at `now` finds: a key without a bucket has a full one.
  unfoldable pub found : Option TokenBucket → RateLimiter → ℕ → ℕ
  unfolding refill
  found (some b) l now = (refill second now b).tokens
  found none l now = l.burst * one_token second

  unfoldable pub available : String → ℕ → RateLimiter → ℕ
  unfolding found
  available k now l = found (Dict.get k l.buckets) l now

  -- Time adds at most the rate.
  pub available-later :
      (k : String) (now later : ℕ) (l : RateLimiter)
      → IsSound l
      → now ≤ later
      → available k later l ≤ available k now l + (later - now) * l.rate_per_minute
  unfolding available refill
  available-later k now later l sound h = elim (Option-cases (Dict.get k l.buckets)) [
    | inl p ↦ ground (arith, p)
    | inr (b, p) ↦
        let (r, _) = sound.0 k b p in
        ground (
          arith,
          p,
          r,
          mul_mono (later - b.last_refill) ((later - now) + (now - b.last_refill)) b.rate,
          distrib (later - now) (now - b.last_refill) b.rate,
        )
  ]

  pub available-burst :
      (k : String) (now : ℕ) (l : RateLimiter)
      → IsSound l
      → available k now l ≤ l.burst * one_token second
  unfolding available refill
  available-burst k now l sound = elim (Option-cases (Dict.get k l.buckets)) [
    | inl p ↦ ground (arith, p)
    | inr (b, p) ↦ let (_, r) = sound.0 k b p in ground (arith, p, r)
  ]

  pub available-some :
      (k : String) (now : ℕ) (l : RateLimiter) (b : TokenBucket)
      → Dict.get k l.buckets ≡ some b
      → available k now l ≡ (refill second now b).tokens
  unfolding available
  available-some k now l b p = ap (λ o. found o l now) p

  pub available_same :
      (k : String) (now : ℕ) (l l' : RateLimiter)
      → Dict.get k l'.buckets ≡ Dict.get k l.buckets
      → l'.burst ≡ l.burst
      → available k now l' ≡ available k now l
  unfolding available found
  available_same k now l l' p e = elim (Option-cases (Dict.get k l.buckets)) [
    | inl q ↦ ground (arith, p, q)
    | inr (b, q) ↦ ground (arith, p, q)
  ]
