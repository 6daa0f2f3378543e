-- ===== src/ApiKeys/Acceptance.antt =====
-- proxy/app/auth/api_keys.py: which key a search by its hash finds after the keys change.
use rag_system.Base.{
  ℕ, Bool, true, false, ◌&&◌, Option, none, some, [], ◌∷◌, String, str_eq, eq_iff, if◌then◌else◌,
  ◌≡◌, refl, ap, sym, ◌∙◌, arith, Bool-cases, inl, inr,
}
use rag_system.Base.Dict.{Dict, get, put}
use rag_system.ApiKeys.Keys.{ApiKey, is_expired, find_key}
use rag_system.ApiKeys.Dictionary.{tally}

-- The identifier of the key that a validation accepts
abbrev pub accepted : Option ApiKey → Option String
accepted none = none
accepted (some k) = some k.key_id

abbrev pub active_with : String → ApiKey → Bool
active_with h k = str_eq k.key_hash h && k.is_active

pub find_key-new :
    (t : ℕ) (h i : String) (k : ApiKey) (d : Dict ApiKey)
    → get i d ≡ none
    → tally (active_with h) d ≡ 0
    → active_with h k ≡ true
    → (find_key t h (put i k d)).0
      ≡ (if is_expired t k then none else some (record k { last_used = some t }))
unfolding find_key put get
find_key-new t h i k [] absent alone here = ground (arith, here)
find_key-new t h i k ((j, x) ∷ d) absent alone here =
    ground (arith, absent, alone, find_key-new t h i k d)

pub find_key-other :
    (t : ℕ) (h i : String) (k : ApiKey) (d : Dict ApiKey)
    → get i d ≡ none
    → active_with h k ≡ false
    → (find_key t h (put i k d)).0 ≡ (find_key t h d).0
unfolding find_key put get
find_key-other t h i k [] absent other = ground (arith, other)
find_key-other t h i k ((j, x) ∷ d) absent other =
    ground (arith, absent, other, find_key-other t h i k d)

pub keys_apart :
    (i j : String) (k : ApiKey) (d : Dict ApiKey)
    → get i d ≡ none
    → get j d ≡ some k
    → str_eq i j ≡ false
keys_apart i j k d absent there =
    let moved : i ≡ j → get i d ≡ get j d = λ e. ap (λ x. get x d) e in
    ground (arith, eq_iff i j, moved, absent, there)

accepted_first :
    (t : ℕ) (h i : String) (k : ApiKey) (d : Dict ApiKey)
    → accepted (find_key t h ((i, k) ∷ d)).0 ≡ (
        if active_with h k
        then (if is_expired t k then none else some k.key_id)
        else accepted (find_key t h d).0)
unfolding find_key
accepted_first t h i k d = elim (Bool-cases (active_with h k)) [
  | inl here ↦ elim (Bool-cases (is_expired t k)) [
    | inl over ↦ simp (here, over) refl
    | inr lives ↦ simp (here, lives) refl
  ]
  | inr other ↦ simp other refl
]

pub find_key-same :
    (t : ℕ) (h i : String) (k x : ApiKey) (d : Dict ApiKey)
    → get i d ≡ some x
    → (active_with h k ≡ active_with h x)
      × (is_expired t k ≡ is_expired t x)
      × (k.key_id ≡ x.key_id)
    → accepted (find_key t h (put i k d)).0 ≡ accepted (find_key t h d).0
unfolding find_key put get
find_key-same t h i k x [] there same = ground (arith, there)
find_key-same t h i k x ((j, y) ∷ d) there (active, expired, own) = elim (Bool-cases (str_eq j i)) [
  | inl first ↦
      let is_x : y ≡ x = ground (arith, there, first) in
      rw first (
        accepted_first t h i k d
        ∙ ground (
          arith,
          active,
          expired,
          own,
          ap (active_with h) is_x,
          ap (is_expired t) is_x,
          ap (λ z. z.key_id) is_x,
        )
        ∙ sym (accepted_first t h j y d))
  | inr later ↦
      let rest = find_key-same t h i k x d (ground (arith, there, later)) (active, expired, own) in
      rw later (accepted_first t h j y (put i k d) ∙ rw rest (sym (accepted_first t h j y d)))
]
