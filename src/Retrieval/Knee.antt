-- ===== src/Retrieval/Knee.antt =====
-- proxy/app/core/retrieval.py: domain_find_knee_point, with find_knee_point of
-- proxy/app/domain/services.py.
use rag_system.Base.{
  ℕ, zero, suc, ◌+◌, ◌-◌, ◌≤◌, ◌<◌, max, ltb, List, [], ◌∷◌, Option, none, some, ◌⊎◌, length, take,
  map, All, if◌then◌else◌, ◌≡◌, refl, arith, Bool-cases, inl, inr, ltb→lt,
}

-- The loop from a place on, with the score before it, the largest drop so far and its place. A score
-- that goes up is no drop.
unfoldable pub knee_loop : ℕ → ℕ → ℕ → ℕ → List ℕ → ℕ
knee_loop i before max_drop knee [] = knee
knee_loop i before max_drop knee (s ∷ scores) =
    let drop = before - s in
    let larger = knee_loop (suc i) s drop i scores in
    let same = knee_loop (suc i) s max_drop knee scores in
    if ltb max_drop drop then larger else same

unfoldable pub find_knee_point : List ℕ → ℕ
unfolding knee_loop
find_knee_point [] = 0
find_knee_point (a ∷ []) = 1
find_knee_point (a ∷ b ∷ []) = 2
find_knee_point (a ∷ b ∷ c ∷ scores) =
    knee_loop 1 a 0 (length (a ∷ b ∷ c ∷ scores)) (b ∷ c ∷ scores)

module _ {A : Type 0} (score : A → ℕ) where
  unfoldable pub domain_find_knee_point : List A → List A
  unfolding find_knee_point
  domain_find_knee_point [] = []
  domain_find_knee_point (a ∷ []) = a ∷ []
  domain_find_knee_point (a ∷ b ∷ []) = a ∷ b ∷ []
  domain_find_knee_point (a ∷ b ∷ c ∷ rs) =
      let results = a ∷ b ∷ c ∷ rs in take (max (find_knee_point (map score results)) 2) results

-- The drops from each score to the next
abbrev pub drops : ℕ → List ℕ → List ℕ
drops before [] = []
drops before (s ∷ scores) = (before - s) ∷ drops s scores

abbrev pub place : ℕ → List ℕ → Option ℕ
place n [] = none
place zero (d ∷ ds) = some d
place (suc n) (d ∷ ds) = place n ds

abbrev pub AtMost : ℕ → List ℕ → Type 0
AtMost most = All (λ d. d ≤ most)

-- The place behind the largest drop, counted from a number, or another number where no drop is larger
-- than what is given
abbrev pub IsKnee : ℕ → ℕ → ℕ → List ℕ → ℕ → Type 0
IsKnee i most otherwise ds knee =
    ((knee ≡ otherwise) × AtMost most ds)
    ⊎ ((n : ℕ) × (d : ℕ) × (knee ≡ i + n) × (place n ds ≡ some d) × (most < d) × AtMost d ds)

knee_loop-IsKnee :
    (i before most otherwise : ℕ) (scores : List ℕ)
    → IsKnee i most otherwise (drops before scores) (knee_loop i before most otherwise scores)
unfolding knee_loop
knee_loop-IsKnee i before most otherwise [] = inl (refl, tt)
knee_loop-IsKnee i before most otherwise (s ∷ scores) = elim (Bool-cases (ltb most (before - s))) [
  | inl larger ↦
      let up : most < before - s = ltb→lt most (before - s) larger in
      rw larger (elim (knee_loop-IsKnee (suc i) s (before - s) i scores) [
        | inl (here, below) ↦
            inr (0, before - s, omega (arith, here), refl, up, (omega arith, below))
        | inr (n, d, later, at_n, above, below) ↦ inr (
          suc n,
          d,
          omega (arith, later),
          at_n,
          omega (arith, up, above),
          (omega (arith, above), below),
        )
      ])
  | inr smaller ↦
      let down : before - s ≤ most = ground (arith, smaller) in
      rw smaller (elim (knee_loop-IsKnee (suc i) s most otherwise scores) [
        | inl (here, below) ↦ inl (here, (down, below))
        | inr (n, d, later, at_n, above, below) ↦
            inr (suc n, d, omega (arith, later), at_n, above, (omega (arith, down, above), below))
      ])
]

-- Three or more results are cut at the knee, and two are kept at least. The knee is the place behind
-- the largest of the drops between neighbouring scores, or all results where no score goes down.
pub domain_find_knee_point_lem :
    {A : Type 0} (score : A → ℕ) (a b c : A) (rs : List A)
    → let results = a ∷ b ∷ c ∷ rs in
      (knee : ℕ) × (domain_find_knee_point score results ≡ take (max knee 2) results)
      × IsKnee 1 0 (length (map score results)) (drops (score a) (map score (b ∷ c ∷ rs))) knee
unfolding domain_find_knee_point find_knee_point
domain_find_knee_point_lem score a b c rs =
    let scores = map score (b ∷ c ∷ rs) in
    let all = length (map score (a ∷ b ∷ c ∷ rs)) in
    (knee_loop 1 (score a) 0 all scores, refl, knee_loop-IsKnee 1 (score a) 0 all scores)
