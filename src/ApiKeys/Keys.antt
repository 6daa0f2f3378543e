-- ===== src/ApiKeys/Keys.antt =====
-- proxy/app/auth/api_keys.py: ApiKey and ApiKeyManager. An expiry is a time and never a text that
-- cannot be read as one.
use Prim.Native.String.{◌++◌ as str_append}
use text.Mathlib.Text.{starts_with}
use rag_system.Base.{
  ℕ, ◌+◌, ◌*◌, ltb, leb, ◌==◌, Bool, true, false, ◌&&◌, not, Option, none, some, List, [], ◌∷◌,
  String, str_eq, length, filter, count, map, if◌then◌else◌,
}
use rag_system.Base.Dict.{Dict, get, put, remove}

pub record ApiKey : Type 0 where
  pub key_id : String
  pub key_hash : String
  pub user_id : String
  pub roles : List String
  pub created_at : ℕ
  pub expires_at : Option ℕ
  pub last_used : Option ℕ
  pub last_rotated_at : Option ℕ
  pub rotated_from_key_id : Option String
  pub is_active : Bool
  pub overlap_till : Option ℕ
  pub replaced_by : Option String

pub record ApiKeyManager : Type 0 where
  pub keys : Dict ApiKey
  pub key_to_user : Dict String

-- What `secrets` draws for a key
pub record Draw : Type 0 where
  pub token : String
  pub id : String

unfoldable pub is_expired : ℕ → ApiKey → Bool
is_expired now k = elim k.expires_at [ none ↦ false | some expiry ↦ ltb expiry now ]

-- A key that is neither revoked nor expired
unfoldable pub is_usable : ℕ → ApiKey → Bool
unfolding is_expired
is_usable now k = k.is_active && not (is_expired now k)

unfoldable pub list_keys : ℕ → String → Bool → ApiKeyManager → List ApiKey
unfolding is_usable
list_keys now user include_inactive m =
    let keys = map (λ p. p.1) m.keys in
    let of_user = if str_eq user "" then keys else filter (λ k. str_eq k.user_id user) keys in
    let usable = filter (is_usable now) of_user in if include_inactive then of_user else usable

-- `ttl_days or self.DEFAULT_KEY_TTL_DAYS`
unfoldable pub lifetime : Option ℕ → ℕ
lifetime none = 90
lifetime (some days) = if days == 0 then 90 else days

unfoldable pub or_user : List String → List String
or_user [] = "user" ∷ []
or_user (r ∷ rs) = r ∷ rs

unfoldable pub rotated_at : ℕ → Option String → Option ℕ
rotated_at now none = none
rotated_at now (some i) = if str_eq i "" then none else some now

pub data Rotated : Type 0 where
  invalid : Rotated
  value_error : Rotated
  rotated : String → ApiKeyManager → Rotated

-- The loop over the keys: the first active one with the hash decides.
unfoldable pub find_key : ℕ → String → Dict ApiKey → Option ApiKey × Dict ApiKey
unfolding is_expired
find_key now key_hash [] = (none, [])
find_key now key_hash ((i, k) ∷ d) =
    let (found, d') = find_key now key_hash d in
    let used = record k { last_used = some now } in
    if str_eq k.key_hash key_hash && k.is_active
    then (if is_expired now k then (none, (i, k) ∷ d) else (some used, (i, used) ∷ d))
    else (found, (i, k) ∷ d')

-- The manager with a key, under its identifier and its hash
unfoldable pub add_key : ApiKey → ApiKeyManager → ApiKeyManager
add_key k m = record {
  keys = put k.key_id k m.keys;
  key_to_user = put k.key_hash k.user_id m.key_to_user;
}

-- What a rotation notes on the old key
unfoldable pub marked : ℕ → String → ApiKey → ApiKey
marked now new old = record old { overlap_till = some (now + 24 * 3600); replaced_by = some new }

module _ (sha256 : String → String) where
  unfoldable pub new_key : ℕ → Draw → String → List String → Option ℕ → Option String → ApiKey
  unfolding lifetime or_user rotated_at
  new_key now draw user roles ttl_days rotated_from = record {
    key_id = draw.id;
    key_hash = sha256 (str_append "sk-" draw.token);
    user_id = user;
    roles = or_user roles;
    created_at = now;
    expires_at = some (now + lifetime ttl_days * 86400);
    last_used = none;
    last_rotated_at = rotated_at now rotated_from;
    rotated_from_key_id = rotated_from;
    is_active = true;
    overlap_till = none;
    replaced_by = none;
  }

  -- Nothing where ValueError is raised
  unfoldable pub generate_key :
      ℕ
      → Draw
      → String
      → List String
      → Option ℕ
      → Option String
      → ApiKeyManager
      → Option (String × ApiKeyManager)
  unfolding list_keys add_key
  generate_key now draw user roles ttl_days rotated_from m =
      if leb 10 (length (list_keys now user false m))
      then none
      else some (
        str_append "sk-" draw.token,
        add_key (new_key now draw user roles ttl_days rotated_from) m,
      )

  -- `suffix` gives what is remembered of the new key. A draw of the old identifier takes the old key
  -- out of the dictionary.
  unfoldable pub rotate_key :
      (String → String) → ℕ → Draw → String → Option ℕ → ApiKeyManager → Rotated
  unfolding generate_key
  rotate_key suffix now draw old_id ttl_days m = elim (get old_id m.keys) [
    | none ↦ invalid
    | some old ↦
        if old.is_active
        then (elim (generate_key now draw old.user_id old.roles ttl_days (some old_id) m) [
          | none ↦ value_error
          | some (new_key, m') ↦ rotated new_key (
              if str_eq draw.id old_id
              then m'
              else record m' { keys = put old_id (marked now (suffix new_key) old) m'.keys })
        ])
        else invalid
  ]

  unfoldable pub validate_key : ℕ → String → ApiKeyManager → Option ApiKey × ApiKeyManager
  unfolding find_key
  validate_key now key m =
      let key_hash = sha256 key in
      let (found, keys) = find_key now key_hash m.keys in
      if starts_with key "sk-"
      then (elim (get key_hash m.key_to_user) [
        | none ↦ (none, m)
        | some user ↦ if str_eq user "" then (none, m) else (found, record m { keys = keys })
      ])
      else (none, m)

unfoldable pub revoke_key : String → ApiKeyManager → Bool × ApiKeyManager
revoke_key id m = elim (get id m.keys) [
  | none ↦ (false, m)
  | some k ↦ (true, record m { keys = put id (record k { is_active = false }) m.keys })
]

unfoldable pub expire_key : ℕ → String → ApiKeyManager → Bool × ApiKeyManager
expire_key now id m = elim (get id m.keys) [
  | none ↦ (false, m)
  | some k ↦ (true, record m { keys = put id (record k { expires_at = some now }) m.keys })
]

-- The test `expiry < now - timedelta(days=30)`, with what is subtracted on the other side
unfoldable pub is_stale : ℕ → ApiKey → Bool
is_stale now k = elim k.expires_at [ none ↦ false | some expiry ↦ ltb (expiry + 30 * 86400) now ]

-- The removal of the keys that are listed, which are there
unfoldable pub remove_keys : List (String × ApiKey) → ApiKeyManager → ApiKeyManager
remove_keys [] m = m
remove_keys ((id, k) ∷ stale) m =
    remove_keys stale
      (record { keys = remove id m.keys; key_to_user = remove k.key_hash m.key_to_user })

unfoldable pub cleanup_expired_keys : ℕ → ApiKeyManager → ℕ × ApiKeyManager
unfolding is_stale remove_keys
cleanup_expired_keys now m =
    let stale = filter (λ p. is_stale now p.1) m.keys in (length stale, remove_keys stale m)

pub record Health : Type 0 where
  pub total_keys : ℕ
  pub active_keys : ℕ
  pub expired_keys : ℕ
  pub keys_near_expiry : ℕ
  pub max_keys_per_user : ℕ

-- The test `exp < now + timedelta(days=7)`
unfoldable pub is_near_expiry : ℕ → ApiKey → Bool
unfolding is_usable
is_near_expiry now k =
    is_usable now k
    && (elim k.expires_at [ none ↦ false | some expiry ↦ ltb expiry (now + 7 * 86400) ])

unfoldable pub get_key_health : ℕ → ApiKeyManager → Health
unfolding is_expired is_near_expiry
get_key_health now m =
    let keys = map (λ p. p.1) m.keys in
    record {
      total_keys = length keys;
      active_keys = count (λ k. k.is_active) keys;
      expired_keys = count (is_expired now) keys;
      keys_near_expiry = count (is_near_expiry now) keys;
      max_keys_per_user = 10;
    }
