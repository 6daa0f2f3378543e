-- ===== src/Memory/Deletion.antt =====
-- proxy/app/shared/memory_manager.py: the sessions behind an insertion and behind deletions.
use rag_system.Base.{
  ◌∙◌, ℕ, suc, ◌+◌, ◌≤◌, Bool, none, List, [], ◌∷◌, String, str_eq, eq_iff, length, map, count, ◌≡◌,
  refl, inl, inr, arith, Bool-cases, Option-cases,
}
use rag_system.Base.Dict.{Dict, get, put, remove, Distinct, get-remove}
use rag_system.Memory.Least.{remove-Distinct, length-remove}
use rag_system.Memory.Conversation.{Conversation}
use rag_system.Memory.Sessions.{delete_all}
use rag_system.Memory.Order.{times}

abbrev pub Store : Type 0
Store = Dict (Conversation × ℕ)

abbrev pub keys : Store → List String
keys d = map (λ e. e.0) d

pub delete_all-Distinct : (ks : List String) (d : Store) → Distinct d → Distinct (delete_all ks d)
unfolding delete_all
delete_all-Distinct [] d h = h
delete_all-Distinct (k ∷ ks) d h = delete_all-Distinct ks (remove k d) (remove-Distinct k d h)

pub shorter-remove : (k : String) (d : Store) → length (remove k d) ≤ length d
unfolding remove
shorter-remove k [] = omega arith
shorter-remove k ((j, v) ∷ d) = ground (arith, shorter-remove k d)

pub shorter-delete_all : (ks : List String) (d : Store) → length (delete_all ks d) ≤ length d
unfolding delete_all
shorter-delete_all [] d = omega arith
shorter-delete_all (k ∷ ks) d =
    omega (arith, shorter-delete_all ks (remove k d), shorter-remove k d)

gone_stays :
    (i : String) (ks : List String) (d : Store) → get i d ≡ none → get i (delete_all ks d) ≡ none
unfolding delete_all
gone_stays i [] d h = h
gone_stays i (k ∷ ks) d h = gone_stays i ks (remove k d) (ground (arith, get-remove k i d, h))

pub get-delete_all :
    (i : String) (ks : List String) (d : Store) → 1 ≤ times i ks → get i (delete_all ks d) ≡ none
unfolding delete_all
get-delete_all i [] d there = ground (arith, there)
get-delete_all i (k ∷ ks) d there = elim (Bool-cases (str_eq k i)) [
  | inl same ↦ gone_stays i ks (remove k d) (ground (arith, get-remove k i d, same))
  | inr other ↦ get-delete_all i ks (remove k d) (rw other at there)
]

pub get-delete_all_others :
    (i : String) (ks : List String) (d : Store) → times i ks ≡ 0 → get i (delete_all ks d) ≡ get i d
unfolding delete_all
get-delete_all_others i [] d new = refl
get-delete_all_others i (k ∷ ks) d new = elim (Bool-cases (str_eq k i)) [
  | inl same ↦ ground (arith, new, same)
  | inr other ↦
      get-delete_all_others i ks (remove k d) (ground (arith, new, other))
      ∙ ground (arith, get-remove k i d, other)
]

-- Each key of the list is there, and is listed once.
abbrev pub Fits : List String → Store → Type 0
Fits ks d = (i : String) → (get i d ≡ none → times i ks ≡ 0) × (times i ks ≤ 1)

pub length-delete_all :
    (ks : List String) (d : Store)
    → Distinct d
    → Fits ks d
    → length (delete_all ks d) + length ks ≡ length d
unfolding delete_all
length-delete_all [] d h fits = omega arith
length-delete_all (k ∷ ks) d h fits = elim (Option-cases (get k d)) [
  | inl absent ↦ ground (arith, (fits k).0, absent, eq_iff k k)
  | inr (v, there) ↦ omega (
    arith,
    length-remove k v d h there,
    length-delete_all ks (remove k d) (remove-Distinct k d h)
        (λ i. (ground (arith, fits i, get-remove k i d), ground (arith, fits i))),
  )
]

pub times-keys :
    (i : String) (d : Store)
    → Distinct d
    → (get i d ≡ none → times i (keys d) ≡ 0) × (times i (keys d) ≤ 1)
unfolding get
times-keys i [] h = ((λ e. refl), omega arith)
times-keys i ((k, v) ∷ d) (fresh, h) = ground (arith, times-keys i d h, fresh, eq_iff k i)

pub length-keys : (d : Store) → length (keys d) ≡ length d
length-keys [] = refl
length-keys (e ∷ d) = omega (arith, length-keys d)

length-put : (k : String) (v : Conversation × ℕ) (d : Store) → length (put k v d) ≤ suc (length d)
unfolding put
length-put k v [] = omega arith
length-put k v ((j, w) ∷ d) = ground (arith, length-put k v d)

pub length-put_new :
    (k : String) (v : Conversation × ℕ) (d : Store)
    → get k d ≡ none
    → length (put k v d) ≡ suc (length d)
unfolding get put
length-put_new k v [] new = refl
length-put_new k v ((j, w) ∷ d) new = ground (arith, length-put_new k v d, new)

pub count-put_new :
    (p : String → Bool) (k : String) (v : Conversation × ℕ) (d : Store)
    → get k d ≡ none
    → count p (keys (put k v d)) ≡ count (λ e. p e.0) d + count p (k ∷ [])
unfolding get put
count-put_new p k v [] new = omega arith
count-put_new p k v ((j, w) ∷ d) new = ground (arith, count-put_new p k v d, new)
