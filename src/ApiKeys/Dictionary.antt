-- ===== src/ApiKeys/Dictionary.antt =====
-- proxy/app/auth/api_keys.py: how many keys of a dictionary pass a test, before and after it changes.
use rag_system.Base.{
  ℕ, ◌+◌, ◌≤◌, Bool, true, ◌&&◌, some, List, [], ◌∷◌, String, str_eq, count, filter, length, map,
  if◌then◌else◌, ◌≡◌, refl, arith, Bool-cases, inl, inr,
}
use rag_system.Base.Dict.{Dict, get, put, remove}
use rag_system.ApiKeys.Keys.{ApiKey, ApiKeyManager, find_key, remove_keys}

abbrev pub tally : (ApiKey → Bool) → Dict ApiKey → ℕ
tally p d = count (λ e. p e.1) d

module _ (p : ApiKey → Bool) where
  pub tally-put :
      (i : String) (k : ApiKey) (d : Dict ApiKey)
      → tally p (put i k d) ≤ tally p d + (if p k then 1 else 0)
  unfolding put
  tally-put i k [] = ground arith
  tally-put i k ((j, x) ∷ d) = ground (arith, tally-put i k d)

  pub tally-put_same :
      (i : String) (k x : ApiKey) (d : Dict ApiKey)
      → get i d ≡ some x
      → (p k ≡ true → p x ≡ true)
      → tally p (put i k d) ≤ tally p d
  unfolding put get
  tally-put_same i k x [] h c = ground (arith, h)
  tally-put_same i k x ((j, y) ∷ d) h c = elim (Bool-cases (str_eq j i)) [
    | inl same ↦ ground (arith, same, h, c)
    | inr differs ↦ ground (arith, differs, tally-put_same i k x d, h, c)
  ]

  pub tally-remove : (i : String) (d : Dict ApiKey) → tally p (remove i d) ≤ tally p d
  unfolding remove
  tally-remove i [] = omega arith
  tally-remove i ((j, x) ∷ d) = ground (arith, tally-remove i d)

  pub tally-find_key :
      (now : ℕ) (h : String) (d : Dict ApiKey)
      → ((k : ApiKey) → p (record k { last_used = some now }) ≡ p k)
      → tally p (find_key now h d).1 ≡ tally p d
  unfolding find_key
  tally-find_key now h [] same = refl
  tally-find_key now h ((i, k) ∷ d) same = ground (arith, tally-find_key now h d same, same k)

  pub tally-remove_keys :
      (stale : List (String × ApiKey)) (m : ApiKeyManager)
      → tally p (remove_keys stale m).keys ≤ tally p m.keys
  unfolding remove_keys
  tally-remove_keys [] m = omega arith
  tally-remove_keys ((i, k) ∷ stale) m = omega (
    arith,
    tally-remove_keys stale
        (record { keys = remove i m.keys; key_to_user = remove k.key_hash m.key_to_user }),
    tally-remove i m.keys,
  )

pub tally-le :
    (p q : ApiKey → Bool)
    → ((k : ApiKey) → p k ≡ true → q k ≡ true)
    → (d : Dict ApiKey) → tally p d ≤ tally q d
tally-le p q h [] = omega arith
tally-le p q h ((i, k) ∷ d) = ground (arith, tally-le p q h d, h k)

pub length-usable :
    (p : ApiKey → Bool) (d : Dict ApiKey) → length (filter p (map (λ e. e.1) d)) ≡ tally p d
length-usable p [] = refl
length-usable p ((i, k) ∷ d) = ground (arith, length-usable p d)

pub length-usable_of :
    (p q : ApiKey → Bool) (d : Dict ApiKey)
    → length (filter p (filter q (map (λ e. e.1) d))) ≡ tally (λ k. q k && p k) d
length-usable_of p q [] = refl
length-usable_of p q ((i, k) ∷ d) = ground (arith, length-usable_of p q d)
