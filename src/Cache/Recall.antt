-- ===== src/Cache/Recall.antt =====
-- proxy/app/shared/cache.py: what a cache in memory answers after a sequence of operations, against a
-- description that knows the operations only.
use Prim.Native.String.{◌++◌ as str_append}
use text.Mathlib.TextLemmas.{append_cancel_left}
use mathlib.Core.Path.{ap}
use rag_system.Base.{
  ℕ, ◌+◌, ◌≤◌, ltb, Option, none, some, List, [], ◌∷◌, String, ◌≡◌, refl, sym, ◌∙◌, arith, str_eq,
  eq_iff, if◌then◌else◌, Bool-cases, inl, inr,
}
use rag_system.Base.Dict.{Dict, get, contains, get-put, get-remove}
use rag_system.Cache.Memory.{
  is_expired, Manager, full_key, cache_get, cache_set, cache_delete, cache_clear, get_value,
  set_value, delete_value, clear,
}

pub data Op {ℓ} (V : Type ℓ) : Type ℓ where
  got : String → Op V
  stored : String → V → ℕ → Op V
  deleted : String → Op V
  cleared : Op V

module _ {ℓ} {V : Type ℓ} where
  unfoldable pub perform : ℕ → Op V → Manager V → Manager V
  unfolding cache_get cache_set cache_delete cache_clear
  perform now (got key) m = (cache_get now key m).1
  perform now (stored key value ttl) m = cache_set now key value ttl m
  perform now (deleted key) m = (cache_delete key m).1
  perform now cleared m = cache_clear m

  -- The cache after some operations with their times, the latest first
  unfoldable pub after : String → List (ℕ × Op V) → Manager V
  unfolding perform
  after prefix [] = record { key_prefix = prefix; store = [] }
  after prefix ((now, op) ∷ before) = perform now op (after prefix before)

  -- What is known of a key: the latest operation that wrote or deleted it decides.
  unfoldable pub recall : ℕ → String → List (ℕ × Op V) → Option V
  recall now key [] = none
  recall now key ((at, got other) ∷ before) = recall now key before
  recall now key ((at, stored other value ttl) ∷ before) =
      if str_eq other key
      then (if ltb (at + ttl) now then none else some value)
      else recall now key before
  recall now key ((at, deleted other) ∷ before) =
      if str_eq other key then none else recall now key before
  recall now key ((at, cleared) ∷ before) = none

  -- No operation is later than the one behind which it stands.
  abbrev pub InOrder : ℕ → List (ℕ × Op V) → Type 0
  InOrder now [] = Unit
  InOrder now ((at, op) ∷ before) = (at ≤ now) × InOrder at before

  unfoldable peek : ℕ → String → Dict (V × ℕ) → Option V
  peek now key store = elim (get key store) [
    | none ↦ none
    | some (value, expires) ↦ if ltb expires now then none else some value
  ]

  get_value-peek :
      (now : ℕ) (key : String) (s : Dict (V × ℕ)) → (get_value now key s).0 ≡ peek now key s
  unfolding get_value is_expired peek
  get_value-peek now key s = ground arith

  peek-get_value :
      (now at : ℕ) (key other : String) (s : Dict (V × ℕ))
      → at ≤ now
      → peek now key (get_value at other s).1 ≡ peek now key s
  unfolding get_value is_expired peek
  peek-get_value now at key other s h = ground (arith, get-remove other key s, eq_iff other key)

  peek-set_value :
      (now at ttl : ℕ) (key other : String) (value : V) (s : Dict (V × ℕ))
      → peek now key (set_value at other value ttl s) ≡ (
          if str_eq other key
          then (if ltb (at + ttl) now then none else some value)
          else peek now key s)
  unfolding set_value peek
  peek-set_value now at ttl key other value s =
      ground (arith, get-put other key (value, at + ttl) s)

  peek-delete_value :
      (now : ℕ) (key other : String) (s : Dict (V × ℕ))
      → peek now key (delete_value other s).1 ≡ (if str_eq other key then none else peek now key s)
  unfolding delete_value peek contains
  peek-delete_value now key other s = ground (arith, get-remove other key s, eq_iff other key)

  full_key-inj : (a b : String) (m : Manager V) → str_eq (full_key a m) (full_key b m) ≡ str_eq a b
  unfolding full_key
  full_key-inj a b m =
      let same_append : a ≡ b → str_append m.key_prefix a ≡ str_append m.key_prefix b =
        (λ e. ap (str_append m.key_prefix) e) in
      elim (Bool-cases (str_eq m.key_prefix "")) [
        | inl bare ↦ simp bare refl
        | inr prefixed ↦ simp prefixed (
            ground (
              arith,
              eq_iff a b,
              eq_iff (str_append m.key_prefix a) (str_append m.key_prefix b),
              append_cancel_left m.key_prefix a b,
              same_append,
            ))
      ]

  later-InOrder : (at now : ℕ) (h : List (ℕ × Op V)) → at ≤ now → InOrder at h → InOrder now h
  later-InOrder at now [] le o = tt
  later-InOrder at now ((t, op) ∷ h) le (earlier, o) = (omega (arith, earlier, le), o)

  peek-after :
      (prefix : String) (now : ℕ) (key : String) (h : List (ℕ × Op V))
      → InOrder now h
      → let m = after prefix h in peek now (full_key key m) m.store ≡ recall now key h
  unfolding after recall perform cache_get cache_set cache_delete cache_clear clear peek full_key
      get
  peek-after prefix now key [] o = refl
  peek-after prefix now key ((at, got other) ∷ h) (le, o) =
      peek-get_value now at (full_key key (after prefix h)) (full_key other (after prefix h))
        (after prefix h).store le
      ∙ peek-after prefix now key h (later-InOrder at now h le o)
  peek-after prefix now key ((at, stored other value ttl) ∷ h) (le, o) = ground (
    arith,
    peek-set_value now at ttl (full_key key (after prefix h)) (full_key other (after prefix h))
        value (after prefix h).store,
    full_key-inj other key (after prefix h),
    peek-after prefix now key h (later-InOrder at now h le o),
  )
  peek-after prefix now key ((at, deleted other) ∷ h) (le, o) = ground (
    arith,
    peek-delete_value now (full_key key (after prefix h)) (full_key other (after prefix h))
        (after prefix h).store,
    full_key-inj other key (after prefix h),
    peek-after prefix now key h (later-InOrder at now h le o),
  )
  peek-after prefix now key ((at, cleared) ∷ h) o = refl

  -- After any operations with times that do not go back, the manager answers what the latest
  -- operation that wrote or deleted the key, or cleared the cache, says: nothing if there is none, if
  -- it deleted or cleared, or if the lifetime that it wrote is over, and the written value otherwise.
  pub recall_lem :
      (prefix : String) (now : ℕ) (key : String) (h : List (ℕ × Op V))
      → InOrder now h
      → (cache_get now key (after prefix h)).0 ≡ recall now key h
  unfolding cache_get
  recall_lem prefix now key h o =
      get_value-peek now (full_key key (after prefix h)) (after prefix h).store
      ∙ peek-after prefix now key h o

  -- A read finds the same, whatever was read before it.
  pub get-get :
      (now at : ℕ) (key other : String) (m : Manager V)
      → at ≤ now
      → (cache_get now key (cache_get at other m).1).0 ≡ (cache_get now key m).0
  unfolding cache_get full_key
  get-get now at key other m h =
      get_value-peek now (full_key key m) (get_value at (full_key other m) m.store).1
      ∙ peek-get_value now at (full_key key m) (full_key other m) m.store h
      ∙ sym (get_value-peek now (full_key key m) m.store)

  -- What a key holds after a write: the value to the end of its lifetime, where it is the key
  pub get-set :
      (now at ttl : ℕ) (key other : String) (value : V) (m : Manager V)
      → (cache_get now key (cache_set at other value ttl m)).0 ≡ (
          if str_eq other key
          then (if ltb (at + ttl) now then none else some value)
          else (cache_get now key m).0)
  unfolding cache_get cache_set full_key
  get-set now at ttl key other value m =
      get_value-peek now (full_key key m) (set_value at (full_key other m) value ttl m.store)
      ∙ ground (
        arith,
        peek-set_value now at ttl (full_key key m) (full_key other m) value m.store,
        full_key-inj other key m,
        get_value-peek now (full_key key m) m.store,
      )
