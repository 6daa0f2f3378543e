-- ===== src/ApiKeys/Limits.antt =====
-- proxy/app/auth/api_keys.py: how many usable keys a user has after any operations.
use rag_system.Base.{
  ℕ, ◌≤◌, ◌<◌, leb, Bool, true, false, ◌&&◌, Option, none, some, List, [], ◌∷◌, String, str_eq,
  eq_iff, length, filter, ◌≡◌, ◌≢◌, refl, ◌∙◌, arith, Bool-cases, Option-cases, inl, inr,
}
use Prim.Native.String.{◌++◌ as str_append}
use mathlib.Core.Path.{subst}
use rag_system.Base.Dict.{get, put, get-put}
use rag_system.ApiKeys.Keys.{
  ApiKey, ApiKeyManager, Draw, is_expired, is_usable, list_keys, add_key, new_key, generate_key,
  invalid, value_error, rotated, rotate_key, marked, validate_key, revoke_key, expire_key, is_stale,
  cleanup_expired_keys,
}
use rag_system.ApiKeys.Dictionary.{
  tally, tally-put, tally-put_same, tally-find_key, tally-remove_keys, tally-le, length-usable,
  length-usable_of,
}

-- The calls of the manager, with their arguments
pub data Op : Type 0 where
  generate : Draw → String → List String → Option ℕ → Op
  rotate : Draw → String → Option ℕ → Op
  validate : String → Op
  revoke : String → Op
  expire : String → Op
  cleanup : Op

module _ (sha256 suffix : String → String) where
  -- A call that raises or refuses leaves the manager as it was.
  unfoldable pub perform : ℕ → Op → ApiKeyManager → ApiKeyManager
  perform now (generate draw user roles ttl) m =
      elim (generate_key sha256 now draw user roles ttl none m) [ none ↦ m | some (key, m') ↦ m' ]
  perform now (rotate draw old_id ttl) m = elim (rotate_key sha256 suffix now draw old_id ttl m) [
    | invalid ↦ m
    | value_error ↦ m
    | rotated key m' ↦ m'
  ]
  perform now (validate key) m = (validate_key sha256 now key m).1
  perform now (revoke id) m = (revoke_key id m).1
  perform now (expire id) m = (expire_key now id m).1
  perform now cleanup m = (cleanup_expired_keys now m).1

  -- The manager after some calls with their times, the latest first
  unfoldable pub after : List (ℕ × Op) → ApiKeyManager
  after [] = record { keys = []; key_to_user = [] }
  after ((now, op) ∷ before) = perform now op (after before)

-- No call is later than the one behind which it stands.
abbrev pub InOrder : ℕ → List (ℕ × Op) → Type 0
InOrder now [] = Unit
InOrder now ((at, op) ∷ before) = (at ≤ now) × InOrder at before

abbrev usable_of : String → ℕ → ApiKey → Bool
usable_of user t k = str_eq k.user_id user && is_usable t k

-- Ten usable keys at most, for each user at each later time
abbrev IsBounded : ℕ → ApiKeyManager → Type 0
IsBounded now m = (user : String) (t : ℕ) → now < t → tally (usable_of user t) m.keys ≤ 10

usable_earlier :
    (user : String) (now t : ℕ) (k : ApiKey)
    → now ≤ t
    → usable_of user t k ≡ true
    → usable_of user now k ≡ true
unfolding is_usable is_expired
usable_earlier user now t k le h = ground (arith, h, le)

usable_marked :
    (user : String) (t now : ℕ) (new : String) (k : ApiKey)
    → usable_of user t (marked now new k) ≡ true
    → usable_of user t k ≡ true
unfolding is_usable is_expired marked
usable_marked user t now new k h = h

length-list_keys :
    (now : ℕ) (user : String) (m : ApiKeyManager)
    → tally (usable_of user now) m.keys ≤ length (list_keys now user false m)
unfolding list_keys
length-list_keys now user m = elim (Bool-cases (str_eq user "")) [
  | inl anyone ↦ rw anyone (
      omega (
        arith,
        length-usable (is_usable now) m.keys,
        tally-le (usable_of user now) (is_usable now) (λ k h. ground (arith, h)) m.keys,
      ))
  | inr named ↦
      rw named (omega (arith, length-usable_of (is_usable now) (λ k. str_eq k.user_id user) m.keys))
]

room_left : (n : ℕ) → leb 10 n ≡ false → n < 10
room_left n h = ground (arith, h)

add_key-IsBounded :
    (now : ℕ) (k : ApiKey) (m : ApiKeyManager)
    → IsBounded now m
    → length (list_keys now k.user_id false m) < 10
    → IsBounded now (add_key k m)
unfolding add_key
add_key-IsBounded now k m h room user t later =
    let more = tally-put (usable_of user t) k.key_id k m.keys in
    elim (Bool-cases (str_eq k.user_id user)) [
      | inl own ↦
          let earlier =
            tally-le (usable_of user t) (usable_of user now)
              (λ x. usable_earlier user now t x (omega (arith, later))) m.keys in
          let same : k.user_id ≡ user = (eq_iff k.user_id user).0 own in
          let few : tally (usable_of user now) m.keys < 10 =
            subst (λ u. tally (usable_of u now) m.keys < 10) same
              (omega (arith, length-list_keys now k.user_id m, room)) in
          ground (arith, more, earlier, few)
      | inr other ↦ ground (arith, more, other, h user t later)
    ]

module _ (sha256 suffix : String → String) where
  generate-IsBounded :
      (now : ℕ) (draw : Draw) (user : String) (roles : List String) (ttl : Option ℕ)
      (m : ApiKeyManager)
      → IsBounded now m
      → IsBounded now (perform sha256 suffix now (generate draw user roles ttl) m)
  unfolding perform generate_key new_key
  generate-IsBounded now draw user roles ttl m h =
      elim (Bool-cases (leb 10 (length (list_keys now user false m)))) [
        | inl full ↦ rw (perform, generate_key, full) h
        | inr room ↦
            rw (perform, generate_key, room)
              (add_key-IsBounded now (new_key sha256 now draw user roles ttl none) m h
                (room_left (length (list_keys now user false m)) room))
      ]

  rotate-IsBounded :
      (now : ℕ) (draw : Draw) (old_id : String) (ttl : Option ℕ) (m : ApiKeyManager)
      → IsBounded now m
      → IsBounded now (perform sha256 suffix now (rotate draw old_id ttl) m)
  unfolding perform rotate_key generate_key add_key new_key
  rotate-IsBounded now draw old_id ttl m h = elim (Option-cases (get old_id m.keys)) [
    | inl absent ↦ simp (perform, rotate_key, generate_key, absent) h
    | inr (old, there) ↦ elim (Bool-cases old.is_active) [
      | inl active ↦ elim (Bool-cases (leb 10 (length (list_keys now old.user_id false m)))) [
        | inl full ↦ simp (perform, rotate_key, generate_key, there, active, full) h
        | inr room ↦
            simp (perform, rotate_key, generate_key, there, active, room)
              (let new = new_key sha256 now draw old.user_id old.roles ttl (some old_id) in
                let bounded =
                  add_key-IsBounded now new m h
                    (room_left (length (list_keys now old.user_id false m)) room) in
                elim (Bool-cases (str_eq draw.id old_id)) [
                  | inl same ↦ rw same bounded
                  | inr differs ↦ rw differs (λ user t later.
                      let kept : get old_id (put draw.id new m.keys) ≡ some old =
                        get-put draw.id old_id new m.keys ∙ rw differs there in
                      omega (
                        arith,
                        bounded user t later,
                        tally-put_same (usable_of user t) old_id
                            (marked now (suffix (str_append "sk-" draw.token)) old) old
                            (put draw.id new m.keys) kept
                            (usable_marked user t now (suffix (str_append "sk-" draw.token)) old),
                      ))
                ])
      ]
      | inr revoked ↦ simp (perform, rotate_key, generate_key, there, revoked) h
    ]
  ]

  perform-IsBounded :
      (now : ℕ) (op : Op) (m : ApiKeyManager)
      → IsBounded now m
      → IsBounded now (perform sha256 suffix now op m)
  unfolding perform validate_key revoke_key expire_key cleanup_expired_keys is_usable is_expired
  perform-IsBounded now (generate draw who roles ttl) m h user t later =
      generate-IsBounded now draw who roles ttl m h user t later
  perform-IsBounded now (rotate draw old_id ttl) m h user t later =
      rotate-IsBounded now draw old_id ttl m h user t later
  perform-IsBounded now (validate key) m h user t later =
      ground (
        arith,
        h user t later,
        tally-find_key (usable_of user t) now (sha256 key) m.keys (λ k. refl),
      )
  perform-IsBounded now (revoke id) m h user t later = elim (Option-cases (get id m.keys)) [
    | inl absent ↦ simp (perform, revoke_key, absent) (h user t later)
    | inr (k, there) ↦
        simp (perform, revoke_key, there)
          (omega (
            arith,
            h user t later,
            tally-put_same (usable_of user t) id (record k { is_active = false }) k m.keys there
                (λ u. ground (arith, u)),
          ))
  ]
  perform-IsBounded now (expire id) m h user t later = elim (Option-cases (get id m.keys)) [
    | inl absent ↦ simp (perform, expire_key, absent) (h user t later)
    | inr (k, there) ↦
        simp (perform, expire_key, there)
          (omega (
            arith,
            h user t later,
            tally-put_same (usable_of user t) id (record k { expires_at = some now }) k m.keys there
                (λ u. ground (arith, u, later)),
          ))
  ]
  perform-IsBounded now cleanup m h user t later = omega (
    arith,
    h user t later,
    tally-remove_keys (usable_of user t) (filter (λ p. is_stale now p.1) m.keys) m,
  )

  after-IsBounded :
      (now : ℕ) (h : List (ℕ × Op)) → InOrder now h → IsBounded now (after sha256 suffix h)
  unfolding after
  after-IsBounded now [] o user t later = omega arith
  after-IsBounded now ((at, op) ∷ before) (le, o) user t later =
      perform-IsBounded at op (after sha256 suffix before) (after-IsBounded at before o) user t
        (omega (arith, le, later))

  -- After any calls with times that do not go back, also such as are refused, a user whose identifier
  -- is not empty has at most ten keys that are neither revoked nor expired, at each time after the
  -- last call.
  pub list_keys_bounded :
      (now t : ℕ) (h : List (ℕ × Op)) (user : String)
      → InOrder now h
      → now < t
      → user ≢ ""
      → length (list_keys t user false (after sha256 suffix h)) ≤ 10
  unfolding list_keys
  list_keys_bounded now t h user o later named =
      let m = after sha256 suffix h in
      let other : str_eq user "" ≡ false = ground (arith, named, eq_iff user "") in
      rw other (
        omega (
          arith,
          after-IsBounded now h o user t later,
          length-usable_of (is_usable t) (λ k. str_eq k.user_id user) m.keys,
        ))
