-- ===== src/Pool/Occurrences.antt =====
-- How often a connection stands in a list of the pool.
use rag_system.Base.{
  ℕ, ◌-◌, ◌≤◌, ◌==◌, ltb, List, [], ◌∷◌, ◌≡◌, length, count, filter, not, arith, if◌then◌else◌,
}
use rag_system.Pool.{remove, has}

abbrev pub occurrences : ℕ → List ℕ → ℕ
occurrences x xs = count (λ y. y == x) xs

pub occurrences-remove :
    (x c : ℕ) (xs : List ℕ)
    → occurrences x (remove c xs) ≡ occurrences x xs - (if c == x then 1 else 0)
unfolding remove
occurrences-remove x c [] = ground arith
occurrences-remove x c (d ∷ xs) = ground (arith, occurrences-remove x c xs)

pub length-remove : (c : ℕ) (xs : List ℕ) → length (remove c xs) ≤ length xs
unfolding remove
length-remove c [] = omega arith
length-remove c (d ∷ xs) = ground (arith, length-remove c xs)

pub has_lem : (c : ℕ) (xs : List ℕ) → has c xs ≡ ltb 0 (occurrences c xs)
has_lem c [] = ground arith
has_lem c (d ∷ xs) = ground (arith, has_lem c xs)

pub occurrences-filter :
    (x c : ℕ) (xs : List ℕ)
    → occurrences x (filter (λ d. not (d == c)) xs) ≡ (if c == x then 0 else occurrences x xs)
occurrences-filter x c [] = ground arith
occurrences-filter x c (d ∷ xs) = ground (arith, occurrences-filter x c xs)
