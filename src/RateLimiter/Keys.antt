-- ===== src/RateLimiter/Keys.antt =====
-- proxy/app/shared/rate_limiter.py: whose bucket a request uses.
use rag_system.Base.{
  ℕ, suc, ◌-◌, ◌≤◌, false, String, some, none, List, [], ◌∷◌, ◌++◌, ◌≡◌, refl, length,
  length-append, ap, arith,
}
use rag_system.Base.Dict
use Prim.Native.String.{◌++◌ as str_append}
use text.Mathlib.Text.{starts_with}
use rag_system.RateLimiter.{
  RateLimiter, or_unknown, Request, passed_on, one_token, entry, extract_key, forwarded_host,
  dispatch,
}
use rag_system.RateLimiter.Buckets.{IsSound, available, mul_mono}
use rag_system.RateLimiter.Requests.{is_allowed-answer, answer}
use rag_system.RateLimiter.RetryAfter.{dispatch_allowed}

entry-append : (xs ys : List String) (x : String) → entry (xs ++ x ∷ ys) (length xs) ≡ some x
unfolding entry
entry-append [] ys x = refl
entry-append (z ∷ xs) ys x = entry-append xs ys x

forwarded_host-append :
    (trusted : ℕ) (spoofed proxies : List String) (client host : String)
    → suc (length proxies) ≡ trusted
    → forwarded_host trusted (spoofed ++ client ∷ proxies) host ≡ client
unfolding forwarded_host
forwarded_host-append trusted spoofed proxies client host h =
    let ips = spoofed ++ client ∷ proxies in
    let where_it_is : length ips - trusted ≡ length spoofed =
      omega (arith, length-append spoofed (client ∷ proxies), h) in
    ground (
      arith,
      where_it_is,
      ap (entry ips) where_it_is,
      entry-append spoofed proxies client,
      length-append spoofed (client ∷ proxies),
    )

-- With as many trusted proxies as are configured, a request without a bearer token uses the bucket
-- of the address that the outermost of them saw, whatever entries the client put before it.
pub extract_key-forwarded :
    (trusted : ℕ) (spoofed proxies : List String) (client : String) (r : Request)
    → suc (length proxies) ≡ trusted
    → starts_with r.authorization "Bearer " ≡ false
    → r.forwarded ≡ some (spoofed ++ client ∷ proxies)
    → extract_key trusted r ≡ str_append "ip:" client
unfolding extract_key
extract_key-forwarded trusted spoofed proxies client r h auth fwd = ground (
  arith,
  fwd,
  auth,
  forwarded_host-append trusted spoofed proxies client (or_unknown r.client_host) h,
)

-- A request whose key has no bucket passes, however many were refused before: so does every
-- request with a bearer token that was not sent before, since the token is not checked here.
pub new_key_passes :
    {R : Type 0} (second trusted : ℕ) (call_next : Request → R) (r : Request) (now : ℕ)
    (l : RateLimiter)
    → IsSound l
    → 1 ≤ l.burst
    → Dict.get (extract_key trusted r) l.buckets ≡ none
    → (dispatch second trusted call_next r now l).0 ≡ passed_on (call_next r)
unfolding available answer
new_key_passes second trusted call_next r now l sound one fresh =
    dispatch_allowed second trusted call_next r now l (
      ground (
        arith,
        fresh,
        mul_mono 1 l.burst (one_token second),
        is_allowed-answer second (extract_key trusted r) now l sound,
      ))
