-- ===== src/Memory/Order.antt =====
-- proxy/app/shared/memory_manager.py: which keys come first where they are sorted.
use mathlib.Core.Path.{subst}
use rag_system.Base.{
  ℕ, zero, suc, ◌≤◌, ◌<◌, Bool, true, List, [], ◌∷◌, String, str_eq, eq_iff, length, take, count,
  All, ◌≡◌, refl, inl, inr, arith, Bool-cases,
}
use rag_system.Memory.Strings.{str_leb, str_leb_total, str_leb_transitive, str_leb_antisym}
use rag_system.Memory.Sessions.{insert_key, sort_keys}

abbrev pub times : String → List String → ℕ
times i ks = count (λ k. str_eq k i) ks

All-times : (P : String → Type 0) (i : String) (ks : List String) → All P ks → 1 ≤ times i ks → P i
All-times P i [] h le = ground (arith, le)
All-times P i (k ∷ ks) (here, h) le = elim (Bool-cases (str_eq k i)) [
  | inl same ↦ subst P ((eq_iff k i).0 same) here
  | inr other ↦ All-times P i ks h (rw other at le)
]

pub times-take : (i : String) (n : ℕ) (ks : List String) → times i (take n ks) ≤ times i ks
times-take i n [] = ground arith
times-take i zero (k ∷ ks) = omega arith
times-take i (suc n) (k ∷ ks) = ground (arith, times-take i n ks)

pub length-take : (n : ℕ) (ks : List String) → n ≤ length ks → length (take n ks) ≡ n
length-take zero [] le = refl
length-take zero (k ∷ ks) le = refl
length-take (suc n) [] le = ground (arith, le)
length-take (suc n) (k ∷ ks) le = omega (arith, length-take n ks, le)

abbrev Sorted : List String → Type 0
Sorted [] = Unit
Sorted (k ∷ ks) = All (λ j. str_leb k j ≡ true) ks × Sorted ks

count-insert_key :
    (p : String → Bool) (k : String) (ks : List String)
    → count p (insert_key k ks) ≡ count p (k ∷ ks)
unfolding insert_key
count-insert_key p k [] = refl
count-insert_key p k (j ∷ js) = ground (arith, count-insert_key p k js)

pub count-sort_keys : (p : String → Bool) (ks : List String) → count p (sort_keys ks) ≡ count p ks
unfolding sort_keys
count-sort_keys p [] = refl
count-sort_keys p (k ∷ ks) =
    ground (arith, count-insert_key p k (sort_keys ks), count-sort_keys p ks)

length-insert_key : (k : String) (ks : List String) → length (insert_key k ks) ≡ suc (length ks)
unfolding insert_key
length-insert_key k [] = refl
length-insert_key k (j ∷ js) = ground (arith, length-insert_key k js)

pub length-sort_keys : (ks : List String) → length (sort_keys ks) ≡ length ks
unfolding sort_keys
length-sort_keys [] = refl
length-sort_keys (k ∷ ks) = omega (arith, length-insert_key k (sort_keys ks), length-sort_keys ks)

All-above :
    (k j : String) (js : List String)
    → str_leb k j ≡ true
    → All (λ i. str_leb j i ≡ true) js
    → All (λ i. str_leb k i ≡ true) js
All-above k j [] e h = tt
All-above k j (i ∷ js) e (here, h) = (str_leb_transitive k j i e here, All-above k j js e h)

All-insert_key :
    (P : String → Type 0) (k : String) (js : List String) → P k → All P js → All P (insert_key k js)
unfolding insert_key
All-insert_key P k [] here h = (here, tt)
All-insert_key P k (j ∷ js) here (there, h) = elim (Bool-cases (str_leb k j)) [
  | inl first ↦ rw first (here, (there, h))
  | inr later ↦ rw later (there, All-insert_key P k js here h)
]

Sorted-insert_key : (k : String) (js : List String) → Sorted js → Sorted (insert_key k js)
unfolding insert_key
Sorted-insert_key k [] h = (tt, tt)
Sorted-insert_key k (j ∷ js) (above, h) = elim (Bool-cases (str_leb k j)) [
  | inl first ↦ rw first ((first, All-above k j js first above), (above, h))
  | inr later ↦ rw later (
    All-insert_key (λ i. str_leb j i ≡ true) k js (str_leb_total k j later) above,
    Sorted-insert_key k js h,
  )
]

Sorted-sort_keys : (ks : List String) → Sorted (sort_keys ks)
unfolding sort_keys
Sorted-sort_keys [] = tt
Sorted-sort_keys (k ∷ ks) = Sorted-insert_key k (sort_keys ks) (Sorted-sort_keys ks)

head_below :
    (i k : String) (ks : List String) → Sorted (k ∷ ks) → 1 ≤ times i (k ∷ ks) → str_leb k i ≡ true
head_below i k ks (above, h) there = elim (Bool-cases (str_eq k i)) [
  | inl same ↦
      let itself : str_leb k k ≡ true = ground (arith, str_leb_total k k) in
      subst (λ j. str_leb k j ≡ true) ((eq_iff k i).0 same) itself
  | inr other ↦ All-times (λ j. str_leb k j ≡ true) i ks above (rw other at there)
]

first_ones :
    (i : String) (n : ℕ) (ks : List String)
    → Sorted ks
    → 1 ≤ times i ks
    → count (λ k. str_leb k i) ks ≤ n
    → 1 ≤ times i (take n ks)
first_ones i n [] h there few = there
first_ones i zero (k ∷ ks) h there few =
    let below = head_below i k ks h there in ground (arith, few, below)
first_ones i (suc n) (k ∷ ks) (above, h) there few =
    let below = head_below i k ks (above, h) there in
    elim (Bool-cases (str_eq k i)) [
      | inl same ↦ rw same (omega arith)
      | inr other ↦ rw other (first_ones i n ks h (rw other at there) (ground (arith, few, below)))
    ]

-- A key is among the first `n` where at most `n` keys, itself among them, are not after it.
pub times-sort_keys :
    (i : String) (n : ℕ) (ks : List String)
    → 1 ≤ times i ks
    → count (λ k. str_leb k i) ks ≤ n
    → 1 ≤ times i (take n (sort_keys ks))
times-sort_keys i n ks there few =
    first_ones i n (sort_keys ks) (Sorted-sort_keys ks)
      (omega (arith, there, count-sort_keys (λ k. str_eq k i) ks))
      (omega (arith, few, count-sort_keys (λ k. str_leb k i) ks))

none_alike :
    (i : String) (ks : List String)
    → All (λ j. str_leb i j ≡ true) ks
    → times i ks ≡ 0
    → count (λ k. str_leb k i) ks ≡ 0
none_alike i [] h new = refl
none_alike i (k ∷ ks) (above, h) new =
    ground (arith, above, new, none_alike i ks h, str_leb_antisym i k, eq_iff k i)

later_ones :
    (i : String) (n : ℕ) (ks : List String)
    → Sorted ks
    → times i ks ≤ 1
    → n < count (λ k. str_leb k i) ks
    → times i (take n ks) ≡ 0
later_ones i n [] h once many = ground arith
later_ones i zero (k ∷ ks) h once many = refl
later_ones i (suc n) (k ∷ ks) (above, h) once many = elim (Bool-cases (str_eq k i)) [
  | inl same ↦
      let after = subst (λ j. All (λ m. str_leb j m ≡ true) ks) ((eq_iff k i).0 same) above in
      ground (arith, none_alike i ks after, same, once, many)
  | inr other ↦ ground (arith, other, later_ones i n ks h, once, many)
]

-- A key that is listed once is not among the first `n` where more than `n` keys, itself among them, are
-- not after it.
pub times-sort_keys_later :
    (i : String) (n : ℕ) (ks : List String)
    → times i ks ≤ 1
    → n < count (λ k. str_leb k i) ks
    → times i (take n (sort_keys ks)) ≡ 0
times-sort_keys_later i n ks once many =
    later_ones i n (sort_keys ks) (Sorted-sort_keys ks)
      (omega (arith, once, count-sort_keys (λ k. str_eq k i) ks))
      (omega (arith, many, count-sort_keys (λ k. str_leb k i) ks))
