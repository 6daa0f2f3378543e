-- ===== src/Pool.antt =====
-- proxy/app/shared/connection_pool.py: ConnectionPool by its synchronous methods. A connection is a
-- number; which connections are valid, and the one that the factory makes, are arguments of a call.
-- The newest connection is first in each list. A factory is set.
use rag_system.Base.{
  ℕ, ◌+◌, ◌==◌, ltb, Bool, true, false, ◌&&◌, Option, some, none, List, [], ◌∷◌, length, any,
  filter, not, if◌then◌else◌,
}
pub mod Occurrences
pub mod Invariant
pub mod DoubleRelease
mod Tests

pub record Pool : Type 0 where
  pub max_connections : ℕ
  pub max_keepalive : ℕ
  pub connections : List ℕ
  pub available : List ℕ
  pub in_use : List ℕ
  pub total_requests : ℕ
  pub closed : Bool

-- `list.remove`, where the element is there
unfoldable pub remove : ℕ → List ℕ → List ℕ
remove c [] = []
remove c (d ∷ ds) = let rest = remove c ds in if d == c then ds else d ∷ rest

abbrev pub has : ℕ → List ℕ → Bool
has c cs = any (λ d. d == c) cs

-- The connection that the loop finds, if there is one, with what is then available and there; or the
-- `ValueError` of `list.remove`.
pub data Picked : Type 0 where
  picked : Option ℕ → List ℕ → List ℕ → Picked
  value_error : List ℕ → List ℕ → Picked

unfoldable pub pick : (ℕ → Bool) → List ℕ → List ℕ → Picked
unfolding remove
pick valid [] connections = picked none [] connections
pick valid (c ∷ available) connections =
    let rest = pick valid available (remove c connections) in
    if valid c
    then picked (some c) available connections
    else if has c connections
    then rest
    else value_error available connections

pub data Acquired : Type 0 where
  acquired : ℕ → Acquired
  exhausted is_closed raised : Acquired

unfoldable pub use_connection : ℕ → Pool → Acquired × Pool
use_connection c p = (
  acquired c,
  record p {
    in_use = if has c p.in_use then p.in_use else c ∷ p.in_use;
    total_requests = p.total_requests + 1;
  },
)

unfoldable pub settle : ℕ → Picked → Pool → Acquired × Pool
unfolding use_connection
settle new (picked (some c) available connections) p =
    use_connection c (record p { available = available; connections = connections })
settle new (picked none available connections) p =
    if ltb (length connections) p.max_connections
    then use_connection new (record p { available = available; connections = new ∷ connections })
    else (exhausted, record p { available = available; connections = connections })
settle new (value_error available connections) p =
    (raised, record p { available = available; connections = connections })

unfoldable pub acquire_sync : (ℕ → Bool) → ℕ → Pool → Acquired × Pool
unfolding pick settle
acquire_sync valid new p =
    if p.closed then (is_closed, p) else settle new (pick valid p.available p.connections) p

unfoldable pub release_sync : (ℕ → Bool) → ℕ → Pool → Pool
unfolding remove
release_sync valid c p =
    let used = filter (λ d. not (d == c)) p.in_use in
    if valid c && ltb (length p.available) p.max_keepalive
    then record p { in_use = used; available = c ∷ p.available }
    else record p { in_use = used; connections = remove c p.connections }

unfoldable pub close_sync : Pool → Pool
close_sync p = record p { closed = true; connections = []; available = []; in_use = [] }
