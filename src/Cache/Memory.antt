-- ===== src/Cache/Memory.antt =====
-- proxy/app/shared/cache.py: InMemoryCache and, over it, CacheManager. An operation gives its result
-- and the new store. Hits and misses are not counted.
use Prim.Native.String.{◌++◌ as str_append}
use rag_system.Base.{
  ℕ, ◌+◌, ltb, Bool, true, false, Option, none, some, [], String, str_eq, if◌then◌else◌,
}
use rag_system.Base.Dict.{Dict, get, contains, put, remove}

-- The test `expire_ts < datetime.now(UTC).timestamp()`
unfoldable pub is_expired : ℕ → ℕ → Bool
is_expired now expire_ts = ltb expire_ts now

module _ {ℓ} {V : Type ℓ} where
  unfoldable pub get_value : ℕ → String → Dict (V × ℕ) → Option V × Dict (V × ℕ)
  unfolding is_expired
  get_value now key store =
      let deleted = remove key store in
      elim (get key store) [
        | none ↦ (none, store)
        | some (value, expire_ts) ↦
            if is_expired now expire_ts then (none, deleted) else (some value, store)
      ]

  unfoldable pub set_value : ℕ → String → V → ℕ → Dict (V × ℕ) → Dict (V × ℕ)
  set_value now key value ttl store = put key (value, now + ttl) store

  unfoldable pub delete_value : String → Dict (V × ℕ) → Bool × Dict (V × ℕ)
  delete_value key store =
      let deleted = remove key store in
      if contains key store then (true, deleted) else (false, store)

  unfoldable pub clear : Dict (V × ℕ) → Dict (V × ℕ)
  clear store = []

-- `CacheManager` with the cache in memory
pub record Manager {ℓ} (V : Type ℓ) : Type ℓ where
  pub key_prefix : String
  pub store : Dict (V × ℕ)

module _ {ℓ} {V : Type ℓ} where
  unfoldable pub full_key : String → Manager V → String
  full_key key m = if str_eq m.key_prefix "" then key else str_append m.key_prefix key

  unfoldable pub cache_get : ℕ → String → Manager V → Option V × Manager V
  unfolding get_value full_key
  cache_get now key m =
      let (result, store) = get_value now (full_key key m) m.store in
      (result, record m { store = store })

  unfoldable pub cache_set : ℕ → String → V → ℕ → Manager V → Manager V
  unfolding set_value full_key
  cache_set now key value ttl m = record m {
    store = set_value now (full_key key m) value ttl m.store;
  }

  unfoldable pub cache_delete : String → Manager V → Bool × Manager V
  unfolding delete_value full_key
  cache_delete key m =
      let (deleted, store) = delete_value (full_key key m) m.store in
      (deleted, record m { store = store })

  unfoldable pub cache_clear : Manager V → Manager V
  unfolding clear
  cache_clear m = record m { store = clear m.store }
