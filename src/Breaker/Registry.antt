-- ===== src/Breaker/Registry.antt =====
-- proxy/app/shared/circuit_breaker.py: the module's dictionary of named breakers.
use rag_system.Base.{ℕ, String, ◌≡◌, none, some, [], ◌∷◌, arith, eq_iff}
use rag_system.Base.{str_eq, if◌then◌else◌}
use rag_system.Base.Dict
use rag_system.Base.Dict.{Dict, get-put}
use rag_system.Breaker.{CircuitBreaker, closed, init, transition}

-- `_breakers[name]`, which is there, or is created
unfoldable pub get_breaker :
    String → ℕ → ℕ → ℕ → Dict CircuitBreaker → CircuitBreaker × Dict CircuitBreaker
unfolding init
get_breaker name failure_threshold cooldown_seconds half_open_max breakers =
    elim (Dict.get name breakers) [
      | some b ↦ (b, breakers)
      | none ↦
          let b = init name failure_threshold cooldown_seconds half_open_max in
          (b, Dict.put name b breakers)
    ]

unfoldable pub reset_breaker : CircuitBreaker → CircuitBreaker
unfolding transition
reset_breaker b = transition closed (record b { failure_count = 0; half_open_calls = 0 })

unfoldable pub reset_all_breakers : Dict CircuitBreaker → Dict CircuitBreaker
reset_all_breakers [] = []
reset_all_breakers ((k, b) ∷ d) = (k, reset_breaker b) ∷ reset_all_breakers d

-- What a name gives is created once: a second request returns the same breaker, with the
-- configuration of the first one, and changes nothing, and other names are untouched.
pub get_breaker_once :
    (name other : String) (f c h f' c' h' : ℕ) (d : Dict CircuitBreaker)
    → let (b, d') = get_breaker name f c h d in
      (get_breaker name f' c' h' d' ≡ (b, d'))
      × (Dict.get other d' ≡ (if str_eq name other then some b else Dict.get other d))
unfolding get_breaker
get_breaker_once name other f c h f' c' h' d = ground (
  arith,
  get-put name name (init name f c h) d,
  get-put name other (init name f c h) d,
  eq_iff name name,
  eq_iff name other,
)
