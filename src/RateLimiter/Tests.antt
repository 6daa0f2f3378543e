-- ===== src/RateLimiter/Tests.antt =====
-- Runs of the rate limiter, and its theorems at concrete inputs.
use rag_system.Base.{ℕ, ◌+◌, ◌*◌, ◌≤◌, some, none, List, [], ◌∷◌, ◌≡◌, refl, arith}
use rag_system.Base.Dict
use rag_system.Base.{◌-◌}
use rag_system.RateLimiter.{
  RateLimiter, Request, passed_on, too_many_requests, is_allowed, cleanup_expired, extract_key,
  dispatch, retry_seconds,
}
use rag_system.RateLimiter.Buckets.{IsSound}
use rag_system.RateLimiter.Requests.{is_allowed-IsSound}
use rag_system.RateLimiter.Limits.{ask, clean, Event, granted, granted_bounded, run}
use rag_system.RateLimiter.RetryAfter.{retry_after_suffices}

-- One token a second, two at once; a tick is a second, and buckets are kept for two minutes.
abbrev limiter : RateLimiter
limiter = record { rate_per_minute = 60; burst = 2; buckets = [] }

limiter-IsSound : IsSound limiter
unfolding Dict.get
limiter-IsSound = (λ k b p. ground (arith, p), tt)

abbrev plain : Request
plain = record { authorization = ""; client_host = some "10.0.0.1"; forwarded = none }

abbrev proxied : Request
proxied = record {
  authorization = "";
  client_host = some "10.0.0.1";
  forwarded = some ("1.2.3.4" ∷ "192.0.2.7" ∷ []);
}

abbrev two_asked : RateLimiter
two_asked = run 1 120 (ask "ip:10.0.0.1" 5 ∷ ask "ip:10.0.0.1" 5 ∷ []) limiter

two_asked-IsSound : IsSound two_asked
two_asked-IsSound =
    is_allowed-IsSound 1 "ip:10.0.0.1" 5 (is_allowed 1 "ip:10.0.0.1" 5 limiter).1
      (is_allowed-IsSound 1 "ip:10.0.0.1" 5 limiter limiter-IsSound)

third : (dispatch {R = ℕ} 1 1 (λ r. 200) plain 5 two_asked).0 ≡ too_many_requests 2
unfolding dispatch is_allowed extract_key Dict.get Dict.put retry_seconds
third = refl

abbrev traffic : List Event
traffic = ask "a" 5 ∷ ask "b" 5 ∷ ask "a" 5 ∷ ask "a" 5 ∷ clean 6 ∷ ask "a" 7 ∷ []

three : granted 1 120 "a" traffic limiter ≡ 3
unfolding is_allowed Dict.get Dict.put cleanup_expired
three = refl

granted_bounded_example : granted 1 120 "a" traffic limiter * 60 ≤ 2 * 60 + (7 - 4) * 60
granted_bounded_example =
    granted_bounded 1 120 "a" 4 traffic limiter limiter-IsSound (omega arith)
      (omega arith, (omega arith, (omega arith, (omega arith, (omega arith, (omega arith, tt))))))

retry_after_suffices_example :
    (dispatch {R = ℕ} 1 1
      (λ r. 200)
      plain
      9
      (run 1 120
        (ask "b" 6 ∷ clean 7 ∷ [])
        (dispatch {R = ℕ} 1 1 (λ r. 200) plain 5 two_asked).1)).0
    ≡ passed_on 200
unfolding is_allowed Dict.get Dict.put extract_key
retry_after_suffices_example =
    retry_after_suffices {R = ℕ} 1 1 (λ r. 200) 120 plain 5 9 2 (ask "b" 6 ∷ clean 7 ∷ []) two_asked
      two_asked-IsSound (omega arith) (omega arith) (omega arith) third (refl, tt)
      (omega arith, (omega arith, tt)) (omega arith) (omega arith)
