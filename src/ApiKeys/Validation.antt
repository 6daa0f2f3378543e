-- ===== src/ApiKeys/Validation.antt =====
-- proxy/app/auth/api_keys.py: which keys are accepted after one is generated or rotated.
use Prim.Native.String.{◌++◌ as str_append}
use mathlib.Core.Path.{subst}
use text.Mathlib.Text.{starts_with}
use text.Mathlib.TextPositions.{starts_with-append}
use rag_system.Base.{
  ℕ, ◌+◌, ◌*◌, ltb, leb, true, false, Option, none, some, List, String, str_eq, eq_iff, length,
  if◌then◌else◌, ◌≡◌, ◌≢◌, refl, ap, sym, ◌∙◌, arith, Bool-cases, Option-cases, inl, inr,
}
use rag_system.Base.Dict.{get, put, get-put}
use rag_system.ApiKeys.Keys.{
  ApiKey, ApiKeyManager, Draw, is_expired, list_keys, lifetime, add_key, new_key, generate_key,
  rotated, rotate_key, marked, find_key, validate_key,
}
use rag_system.ApiKeys.Acceptance.{
  accepted, active_with, find_key-new, find_key-other, find_key-same, keys_apart,
}
use rag_system.ApiKeys.Dictionary.{tally}

module _ (sha256 : String → String) where
  -- What is known of a generated key: the text and the manager
  generate_key_made :
      (now : ℕ) (draw : Draw) (user : String) (roles : List String) (ttl : Option ℕ)
      (from : Option String) (m m' : ApiKeyManager) (key : String)
      → generate_key sha256 now draw user roles ttl from m ≡ some (key, m')
      → (str_append "sk-" draw.token ≡ key)
        × (add_key (new_key sha256 now draw user roles ttl from) m ≡ m')
  unfolding generate_key
  generate_key_made now draw user roles ttl from m m' key =
      elim (Bool-cases (leb 10 (length (list_keys now user false m)))) [
        | inl full ↦ rw (generate_key, full) (λ h. ground (arith, h))
        | inr room ↦ rw (generate_key, room) (λ h. (ground (arith, h), ground (arith, h)))
      ]

  validate_key_known :
      (t : ℕ) (key user : String) (m : ApiKeyManager)
      → starts_with key "sk-" ≡ true
      → get (sha256 key) m.key_to_user ≡ some user
      → str_eq user "" ≡ false
      → (validate_key sha256 t key m).0 ≡ (find_key t (sha256 key) m.keys).0
  unfolding validate_key
  validate_key_known t key user m formed known named =
      simp (validate_key, formed, known, named) refl

  validate_key_agrees :
      (t : ℕ) (key : String) (m m' : ApiKeyManager)
      → get (sha256 key) m'.key_to_user ≡ get (sha256 key) m.key_to_user
      → accepted (find_key t (sha256 key) m'.keys).0 ≡ accepted (find_key t (sha256 key) m.keys).0
      → accepted (validate_key sha256 t key m').0 ≡ accepted (validate_key sha256 t key m).0
  unfolding validate_key
  validate_key_agrees t key m m' same found = elim (Bool-cases (starts_with key "sk-")) [
    | inl formed ↦ elim (Option-cases (get (sha256 key) m.key_to_user)) [
      | inl unknown ↦ simp (validate_key, formed, same, unknown) refl
      | inr (user, known) ↦ elim (Bool-cases (str_eq user "")) [
        | inl nobody ↦ simp (validate_key, formed, same, known, nobody) refl
        | inr named ↦ simp (validate_key, formed, same, known, named) found
      ]
    ]
    | inr other ↦ simp (validate_key, other) refl
  ]

  validate_key-add_key :
      (t : ℕ) (k : ApiKey) (m : ApiKeyManager) (key : String)
      → starts_with key "sk-" ≡ true
      → sha256 key ≡ k.key_hash
      → k.is_active ≡ true
      → k.user_id ≢ ""
      → get k.key_id m.keys ≡ none
      → tally (active_with k.key_hash) m.keys ≡ 0
      → (validate_key sha256 t key (add_key k m)).0
        ≡ (if is_expired t k then none else some (record k { last_used = some t }))
  unfolding add_key
  validate_key-add_key t k m key formed hashed active named absent alone =
      let known : get (sha256 key) (put k.key_hash k.user_id m.key_to_user) ≡ some k.user_id =
        ground (
          arith,
          get-put k.key_hash (sha256 key) k.user_id m.key_to_user,
          eq_iff k.key_hash (sha256 key),
          hashed,
        ) in
      validate_key_known t key k.user_id (add_key k m) formed known
        (ground (arith, named, eq_iff k.user_id ""))
      ∙ ap (λ h. (find_key t h (put k.key_id k m.keys)).0) hashed
      ∙ find_key-new t k.key_hash k.key_id k m.keys absent alone
          (ground (arith, active, eq_iff k.key_hash k.key_hash))

  -- A key that is generated for a named user, with an identifier and a hash that no other has, is
  -- accepted at every time up to the end of its lifetime, with the user and the roles it was made
  -- for, and at none after it.
  pub validate_key-generate_key :
      (now t : ℕ) (draw : Draw) (user : String) (roles : List String) (ttl : Option ℕ)
      (from : Option String) (m m' : ApiKeyManager) (key : String)
      → generate_key sha256 now draw user roles ttl from m ≡ some (key, m')
      → user ≢ ""
      → get draw.id m.keys ≡ none
      → tally (active_with (sha256 key)) m.keys ≡ 0
      → (validate_key sha256 t key m').0 ≡ (
          if ltb (now + lifetime ttl * 86400) t
          then none
          else some (record (new_key sha256 now draw user roles ttl from) { last_used = some t }))
  unfolding new_key is_expired
  validate_key-generate_key now t draw user roles ttl from m m' key made named absent alone =
      let (text, manager) = generate_key_made now draw user roles ttl from m m' key made in
      let k = new_key sha256 now draw user roles ttl from in
      let formed : starts_with key "sk-" ≡ true =
        subst (λ x. starts_with x "sk-" ≡ true) text (starts_with-append "sk-" draw.token) in
      let hashed : sha256 key ≡ k.key_hash = ap sha256 (sym text) in
      ap (λ x. (validate_key sha256 t key x).0) (sym manager)
      ∙ validate_key-add_key t k m key formed hashed refl named absent
          (subst (λ h. tally (active_with h) m.keys ≡ 0) hashed alone)

  rotate_key_made :
      (suffix : String → String) (now : ℕ) (draw : Draw) (old_id : String) (ttl : Option ℕ)
      (m m' : ApiKeyManager) (new : String)
      → rotate_key sha256 suffix now draw old_id ttl m ≡ rotated new m'
      → get draw.id m.keys ≡ none
      → (old : ApiKey) × (get old_id m.keys ≡ some old)
        × (str_append "sk-" draw.token ≡ new)
        × (let added =
              add_key (new_key sha256 now draw old.user_id old.roles ttl (some old_id)) m in
            record added {
              keys = put old_id (marked now (suffix (str_append "sk-" draw.token)) old) added.keys;
            }
            ≡ m')
  unfolding rotate_key generate_key
  rotate_key_made suffix now draw old_id ttl m m' new turned absent =
      let Made : Type 0 =
        (old : ApiKey) × (get old_id m.keys ≡ some old)
        × (str_append "sk-" draw.token ≡ new)
        × (let added =
              add_key (new_key sha256 now draw old.user_id old.roles ttl (some old_id)) m in
            record added {
              keys = put old_id (marked now (suffix (str_append "sk-" draw.token)) old) added.keys;
            }
            ≡ m') in
      let go : rotate_key sha256 suffix now draw old_id ttl m ≡ rotated new m' → Made =
        elim (Option-cases (get old_id m.keys)) [
          | inl unknown ↦ simp (rotate_key, unknown) (λ h. ground (arith, h))
          | inr (old, there) ↦
              let apart = keys_apart draw.id old_id old m.keys absent there in
              elim (Bool-cases old.is_active) [
                | inl active ↦
                    elim (Bool-cases (leb 10 (length (list_keys now old.user_id false m)))) [
                      | inl full ↦
                          simp (rotate_key, there, generate_key, active, full)
                            (λ h. ground (arith, h))
                      | inr room ↦
                          simp (rotate_key, there, generate_key, active, room, apart)
                            (λ h. (old, refl, ground (arith, h), ground (arith, h)))
                    ]
                | inr revoked ↦ simp (rotate_key, there, revoked) (λ h. ground (arith, h))
              ]
        ] in
      go turned

  -- A rotation with a new identifier takes effect on no other key: at every time, also after the
  -- overlap, a key whose hash is not the new key's is accepted after the rotation as it was before it,
  -- the old key among them.
  pub validate_key-rotate_key :
      (suffix : String → String) (now t : ℕ) (draw : Draw) (old_id : String) (ttl : Option ℕ)
      (m m' : ApiKeyManager) (key new : String)
      → rotate_key sha256 suffix now draw old_id ttl m ≡ rotated new m'
      → get draw.id m.keys ≡ none
      → sha256 key ≢ sha256 new
      → accepted (validate_key sha256 t key m').0 ≡ accepted (validate_key sha256 t key m).0
  unfolding add_key new_key marked is_expired
  validate_key-rotate_key suffix now t draw old_id ttl m m' key new turned absent other =
      let (old, there, text, manager) =
        rotate_key_made suffix now draw old_id ttl m m' new turned absent in
      let k = new_key sha256 now draw old.user_id old.roles ttl (some old_id) in
      let old' = marked now (suffix (str_append "sk-" draw.token)) old in
      let differs : str_eq (sha256 (str_append "sk-" draw.token)) (sha256 key) ≡ false = ground (
        arith,
        ap sha256 text,
        other,
        eq_iff (sha256 (str_append "sk-" draw.token)) (sha256 key),
      ) in
      let apart = keys_apart draw.id old_id old m.keys absent there in
      let kept : get old_id (put draw.id k m.keys) ≡ some old =
        get-put draw.id old_id k m.keys ∙ rw apart there in
      subst
        (λ x. accepted (validate_key sha256 t key x).0 ≡ accepted (validate_key sha256 t key m).0)
        manager
        (validate_key_agrees t key m
          (record (add_key k m) { keys = put old_id old' (put draw.id k m.keys) })
          (get-put (sha256 (str_append "sk-" draw.token)) (sha256 key) old.user_id m.key_to_user
            ∙ rw differs refl)
          (find_key-same t (sha256 key) old_id old' old (put draw.id k m.keys) kept
              (refl, refl, refl)
            ∙ ap accepted
                (find_key-other t (sha256 key) draw.id k m.keys absent (rw differs refl))))
