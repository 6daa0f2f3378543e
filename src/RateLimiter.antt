-- ===== src/RateLimiter.antt =====
-- proxy/app/shared/rate_limiter.py: the token buckets, the limiter that keeps one for each key,
-- and the middleware's decision on a request.
-- The clock counts ticks, `second` of them in a second. Tokens are counted in parts, 60 * second
-- to a token, so that a tick refills `rate` parts where the rate is `rate` tokens a minute, and
-- the source's division by 60 loses nothing.
-- The lock makes each operation one step. A failed `consume` keeps what it lacks, in parts: the
-- wait is that over `rate * second`, in seconds, and a rate of 0 divides by zero.
use rag_system.Base.{
  ℕ, zero, suc, ◌+◌, ◌-◌, ◌*◌, ◌/◌, min, max, Bool, true, false, String, Option, some, none, List,
  [], ◌∷◌, length, leb, ltb, if◌then◌else◌, ◌&&◌,
}
use rag_system.Base.Dict
use rag_system.Base.Dict.{Dict}
use Prim.Native.String.{◌++◌ as str_append, slice, len}
use text.Mathlib.Text.{starts_with}
pub mod Buckets
pub mod Requests
pub mod Cleanup
pub mod Limits
pub mod RetryAfter
pub mod Keys
mod Tests

pub record TokenBucket : Type 0 where
  pub rate : ℕ
  pub burst : ℕ
  pub tokens : ℕ
  pub last_refill : ℕ

pub record RateLimiter : Type 0 where
  pub rate_per_minute : ℕ
  pub burst : ℕ
  pub buckets : Dict TokenBucket

pub data Consumed : Type 0 where
  allowed : Consumed
  denied : ℕ → Consumed
  zero_division : Consumed

module _ (second : ℕ) where
  abbrev pub one_token : ℕ
  one_token = 60 * second

  unfoldable pub new_bucket : ℕ → ℕ → ℕ → TokenBucket
  new_bucket rate burst now = record {
    rate = rate;
    burst = burst;
    tokens = burst * one_token;
    last_refill = now;
  }

  unfoldable pub refill : ℕ → TokenBucket → TokenBucket
  refill now b =
      let elapsed = now - b.last_refill in
      record b {
        tokens = min (b.burst * one_token) (b.tokens + elapsed * b.rate);
        last_refill = now;
      }

  unfoldable pub consume : ℕ → ℕ → TokenBucket → Consumed × TokenBucket
  unfolding refill
  consume tokens now b =
      let b' = refill now b in
      let wanted = tokens * one_token in
      if leb wanted b'.tokens
      then (allowed, record b' { tokens = b'.tokens - wanted })
      else if leb b'.rate 0
      then (zero_division, b')
      else (denied (wanted - b'.tokens), b')

  unfoldable pub get_bucket : String → ℕ → RateLimiter → TokenBucket × RateLimiter
  unfolding new_bucket
  get_bucket key now l = elim (Dict.get key l.buckets) [
    | some b ↦ (b, l)
    | none ↦
        let b = new_bucket l.rate_per_minute l.burst now in
        (b, record l { buckets = Dict.put key b l.buckets })
  ]

  -- The bucket is shared with the dictionary, which sees what `consume` does to it. Creation and
  -- refill read the clock in the same step.
  unfoldable pub is_allowed : String → ℕ → RateLimiter → Consumed × RateLimiter
  unfolding consume get_bucket
  is_allowed key now l =
      let (b, l') = get_bucket key now l in
      let (answer, b') = consume 1 now b in
      (answer, record l' { buckets = Dict.put key b' l'.buckets })

  -- `int(retry_after) + 1`, at least 1
  unfoldable pub retry_seconds : ℕ → ℕ → ℕ
  retry_seconds rate lacking = max 1 (lacking / (rate * second) + 1)

unfoldable pub fresh_buckets : ℕ → ℕ → Dict TokenBucket → Dict TokenBucket
fresh_buckets max_age now [] = []
fresh_buckets max_age now ((k, b) ∷ d) =
    let rest = fresh_buckets max_age now d in
    if ltb max_age (now - b.last_refill) then rest else (k, b) ∷ rest

unfoldable pub cleanup_expired : ℕ → ℕ → RateLimiter → RateLimiter
unfolding fresh_buckets
cleanup_expired max_age now l = record l { buckets = fresh_buckets max_age now l.buckets }

-- `forwarded` holds the entries of the X-Forwarded-For header, split at its commas and stripped;
-- `none` is a header that is missing or empty.
pub record Request : Type 0 where
  pub authorization : String
  pub client_host : Option String
  pub forwarded : Option (List String)

-- `ips[idx]`
unfoldable pub entry : List String → ℕ → Option String
entry [] i = none
entry (ip ∷ ips) zero = some ip
entry (ip ∷ ips) (suc i) = entry ips i

unfoldable pub or_unknown : Option String → String
or_unknown none = "unknown"
or_unknown (some host) = host

unfoldable pub forwarded_host : ℕ → List String → String → String
unfolding entry or_unknown
forwarded_host trusted ips host =
    if leb trusted (length ips)
    then elim (entry ips (length ips - trusted)) [ some ip ↦ ip | none ↦ host ]
    else host

unfoldable pub extract_key : ℕ → Request → String
unfolding or_unknown forwarded_host
extract_key trusted r =
    if starts_with r.authorization "Bearer "
    then str_append "apikey:" (slice r.authorization 7 (len r.authorization))
    else let host = or_unknown r.client_host in
      elim r.forwarded [
        | none ↦ str_append "ip:" host
        | some ips ↦
            str_append "ip:" (if ltb 0 trusted then forwarded_host trusted ips host else host)
      ]

-- What the middleware answers: the response of the next handler, a 429 with its Retry-After, or
-- the exception that leaves it.
pub data Reply (R : Type 0) : Type 0 where
  passed_on : R → Reply R
  too_many_requests : ℕ → Reply R
  error : Reply R

unfoldable pub dispatch :
    {R : Type 0} (second trusted : ℕ)
    → (Request → R)
    → Request
    → ℕ
    → RateLimiter
    → Reply R × RateLimiter
dispatch second trusted call_next r now l =
    let (answer, l') = is_allowed second (extract_key trusted r) now l in
    elim answer [
      | allowed ↦ (passed_on (call_next r), l')
      | denied lacking ↦ (too_many_requests (retry_seconds second l.rate_per_minute lacking), l')
      | zero_division ↦ (error, l')
    ]
