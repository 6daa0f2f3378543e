-- ===== src/Memory/Least.antt =====
-- proxy/app/shared/memory_manager.py: the entity that is mentioned least, and dictionaries without it.
use mathlib.Core.Path.{subst}
use rag_system.Base.{
  ℕ, suc, ◌≤◌, ltb, true, false, none, some, [], ◌∷◌, String, str_eq, eq_iff, length, ◌≡◌, inl, inr,
  refl, arith, Bool-cases,
}
use rag_system.Base.Dict.{Dict, get, remove, Distinct, get-remove}
use rag_system.Memory.Tracker.{least, oldest}

module _ {ℓ} {V : Type ℓ} where
  remove-absent : (k : String) (d : Dict V) → get k d ≡ none → remove k d ≡ d
  unfolding get remove
  remove-absent k [] h = refl
  remove-absent k ((j, w) ∷ d) h = ground (arith, h, remove-absent k d)

  pub remove-Distinct : (k : String) (d : Dict V) → Distinct d → Distinct (remove k d)
  unfolding remove
  remove-Distinct k [] h = tt
  remove-Distinct k ((j, w) ∷ d) (fresh, h) = elim (Bool-cases (str_eq j k)) [
    | inl same ↦ rw same (remove-Distinct k d h)
    | inr other ↦ rw other (ground (arith, get-remove k j d, fresh), remove-Distinct k d h)
  ]

  pub length-remove :
      (k : String) (v : V) (d : Dict V)
      → Distinct d
      → get k d ≡ some v
      → suc (length (remove k d)) ≡ length d
  unfolding get remove
  length-remove k v [] h e = ground (arith, e)
  length-remove k v ((j, w) ∷ d) (fresh, h) e = elim (Bool-cases (str_eq j k)) [
    | inl same ↦ rw same (ground (arith, remove-absent k d, fresh, eq_iff j k, same))
    | inr other ↦ rw other (ground (arith, length-remove k v d h, e, other))
  ]

-- The key has the count, and no other has a smaller one.
abbrev pub IsLeast : String → ℕ → Dict ℕ → Type 0
IsLeast k c d = (get k d ≡ some c) × ((i : String) (n : ℕ) → get i d ≡ some n → c ≤ n)

put_first :
    (k : String) (c : ℕ) (d : Dict ℕ) (l : String) (m : ℕ)
    → get k d ≡ none
    → m ≤ c
    → IsLeast l m d
    → IsLeast l m ((k, c) ∷ d)
unfolding get
put_first k c d l m fresh le (there, lowest) =
    (ground (arith, fresh, there, eq_iff k l), λ i n e. ground (arith, e, lowest i n, le))

put_second :
    (k : String) (c : ℕ) (j : String) (n : ℕ) (d : Dict ℕ) (l : String) (m : ℕ)
    → get k ((j, n) ∷ d) ≡ none
    → get j d ≡ none
    → m ≤ n
    → IsLeast l m ((k, c) ∷ d)
    → IsLeast l m ((k, c) ∷ (j, n) ∷ d)
unfolding get
put_second k c j n d l m fresh apart le (there, lowest) = (
  ground (arith, fresh, apart, there, eq_iff k l, eq_iff j l, eq_iff j k),
  λ i o e. ground (arith, e, lowest i o, le),
)

least_smaller :
    (k : String) (c : ℕ) (j : String) (n : ℕ) (d : Dict ℕ)
    → ltb n c ≡ true
    → least j n d ≡ least k c ((j, n) ∷ d)
unfolding least
least_smaller k c j n d smaller = rw smaller refl

least_larger :
    (k : String) (c : ℕ) (j : String) (n : ℕ) (d : Dict ℕ)
    → ltb n c ≡ false
    → least k c d ≡ least k c ((j, n) ∷ d)
unfolding least
least_larger k c j n d larger = rw larger refl

least_of :
    (k : String) (c : ℕ) (d : Dict ℕ)
    → Distinct ((k, c) ∷ d)
    → (m : ℕ) × IsLeast (least k c d) m ((k, c) ∷ d)
unfolding get
least_of k c [] h = (c, (unfold least in ground (arith, eq_iff k k), λ i n e. ground (arith, e)))
least_of k c ((j, n) ∷ d) (fresh, (apart, h)) = elim (Bool-cases (ltb n c)) [
  | inl smaller ↦
      let (m, lowest) = least_of j n d (apart, h) in
      let le = lowest.1 j n (ground (arith, eq_iff j j)) in
      (
        m,
        subst (λ l. IsLeast l m ((k, c) ∷ (j, n) ∷ d)) (least_smaller k c j n d smaller)
            (put_first k c ((j, n) ∷ d) (least j n d) m fresh (ground (arith, le, smaller)) lowest),
      )
  | inr larger ↦
      let (m, lowest) = least_of k c d (ground (arith, fresh), h) in
      let le = lowest.1 k c (ground (arith, eq_iff k k)) in
      (
        m,
        subst (λ l. IsLeast l m ((k, c) ∷ (j, n) ∷ d)) (least_larger k c j n d larger)
            (put_second k c j n d (least k c d) m fresh apart (ground (arith, le, larger)) lowest),
      )
]

pub oldest_of :
    (d : Dict ℕ)
    → Distinct d
    → 1 ≤ length d
    → (k : String) × (m : ℕ) × (oldest d ≡ some k) × IsLeast k m d
unfolding oldest
oldest_of [] h le = ground (arith, le)
oldest_of ((k, c) ∷ d) h le = let (m, lowest) = least_of k c d h in (least k c d, m, refl, lowest)
