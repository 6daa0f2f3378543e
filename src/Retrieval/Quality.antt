-- ===== src/Retrieval/Quality.antt =====
-- proxy/app/core/retrieval.py: filter_results_by_score and domain_find_knee_point, with
-- find_knee_point of proxy/app/domain/services.py. The two thresholds and the number of strong sources,
-- which are settings, are arguments.
use rag_system.Base.{
  ℕ, zero, suc, ◌+◌, ◌≤◌, ◌<◌, ltb, leb, Bool, true, false, ◌&&◌, List, [], ◌∷◌, ◌++◌, length,
  filter, take, All, if◌then◌else◌, ◌≡◌, refl, sym, arith, count, leb→le, Bool-cases, inl, inr,
}

pub data Level : Type 0 where
  strong : Level
  borderline : Level
  insufficient : Level

positive : (n : ℕ) → ltb 0 (suc n) ≡ true
positive n = ground arith

module _ {A : Type 0} (score : A → ℕ) (strong_threshold borderline_threshold min_strong : ℕ) where
  unfoldable pub strong_results : List A → List A
  strong_results = filter (λ r. leb strong_threshold (score r))

  unfoldable pub borderline_results : List A → List A
  borderline_results =
      filter (λ r. leb borderline_threshold (score r) && ltb (score r) strong_threshold)

  -- The choice among the strong and the borderline results
  unfoldable pub choose : List A → List A → List A × Level
  choose good middling =
      if leb min_strong (length good)
      then (good ++ take 2 middling, strong)
      else if ltb 0 (length good)
      then (good ++ take 1 middling, borderline)
      else if ltb 0 (length middling)
      then (take 3 middling, borderline)
      else ([], insufficient)

  unfoldable pub filter_results_by_score : List A → List A × Level
  filter_results_by_score [] = ([], insufficient)
  filter_results_by_score (r ∷ rs) = choose (strong_results (r ∷ rs)) (borderline_results (r ∷ rs))

  abbrev pub Reaches : ℕ → List A → Type 0
  Reaches threshold = All (λ r. threshold ≤ score r)

  abbrev pub IsBelow : List A → Type 0
  IsBelow = All (λ r. score r < borderline_threshold)

  Reaches-strong :
      borderline_threshold ≤ strong_threshold
      → (rs : List A) → Reaches borderline_threshold (strong_results rs)
  unfolding strong_results
  Reaches-strong le [] = tt
  Reaches-strong le (r ∷ rs) = elim (Bool-cases (leb strong_threshold (score r))) [
    | inl good ↦ rw good (ground (arith, good, le), Reaches-strong le rs)
    | inr bad ↦ rw bad (Reaches-strong le rs)
  ]

  Reaches-borderline : (rs : List A) → Reaches borderline_threshold (borderline_results rs)
  unfolding borderline_results
  Reaches-borderline [] = tt
  Reaches-borderline (r ∷ rs) =
      elim (Bool-cases (leb borderline_threshold (score r) && ltb (score r) strong_threshold)) [
        | inl good ↦ rw good (ground (arith, good), Reaches-borderline rs)
        | inr bad ↦ rw bad (Reaches-borderline rs)
      ]

  Reaches-take : (n t : ℕ) (rs : List A) → Reaches t rs → Reaches t (take n rs)
  Reaches-take zero t [] h = tt
  Reaches-take zero t (r ∷ rs) h = tt
  Reaches-take (suc n) t [] h = tt
  Reaches-take (suc n) t (r ∷ rs) (here, h) = (here, Reaches-take n t rs h)

  Reaches-append : (t : ℕ) (rs qs : List A) → Reaches t rs → Reaches t qs → Reaches t (rs ++ qs)
  Reaches-append t [] qs h k = k
  Reaches-append t (r ∷ rs) qs (here, h) k = (here, Reaches-append t rs qs h k)

  IsBelow-nothing :
      borderline_threshold ≤ strong_threshold
      → (rs : List A) → IsBelow rs
      → (length (strong_results rs) ≡ 0) × (length (borderline_results rs) ≡ 0)
  unfolding strong_results borderline_results
  IsBelow-nothing le [] b = (refl, refl)
  IsBelow-nothing le (r ∷ rs) (here, b) =
      let (h, k) = IsBelow-nothing le rs b in
      (ground (arith, h, here, le), ground (arith, k, here, le))

  count-append : (p : A → Bool) (rs qs : List A) → count p rs ≤ count p (rs ++ qs)
  count-append p [] qs = omega arith
  count-append p (r ∷ rs) qs = ground (arith, count-append p rs qs)

  -- What a level says of the numbers of strong and of borderline results
  abbrev pub Judged : ℕ → ℕ → Level → Type 0
  Judged good middling strong = min_strong ≤ good
  Judged good middling borderline = (good < min_strong) × (0 < good + middling)
  Judged good middling insufficient = (good ≡ 0) × (middling ≡ 0)

  abbrev IsChoice : List A → List A → List A × Level → Type 0
  IsChoice good middling (kept, level) =
      Reaches borderline_threshold kept
      × ((p : A → Bool) → count p good ≤ count p kept)
      × ((level ≡ insufficient → kept ≡ []) × (kept ≡ [] → level ≡ insufficient))
      × Judged (length good) (length middling) level

  choose-IsChoice :
      (good middling : List A)
      → 1 ≤ min_strong
      → Reaches borderline_threshold good
      → Reaches borderline_threshold middling
      → IsChoice good middling (choose good middling)
  unfolding choose
  choose-IsChoice [] [] some_strong h k =
      let few : leb min_strong 0 ≡ false = ground (arith, some_strong) in
      simp few (tt, (λ p. omega arith), ((λ e. refl), (λ e. refl)), (refl, refl))
  choose-IsChoice [] (m ∷ ms) some_strong h k =
      let few : leb min_strong 0 ≡ false = ground (arith, some_strong) in
      simp (few, positive (length ms))
        (
          Reaches-take 3 borderline_threshold (m ∷ ms) k,
          (λ p. omega arith),
          ((λ e. ground (arith, e)), (λ e. ground (arith, e))),
          (omega (arith, some_strong), omega arith),
        )
  choose-IsChoice (g ∷ gs) middling some_strong h k =
      let kept = λ (n : ℕ).
        Reaches-append borderline_threshold (g ∷ gs) (take n middling) h
          (Reaches-take n borderline_threshold middling k) in
      elim (Bool-cases (leb min_strong (length (g ∷ gs)))) [
        | inl enough ↦
            simp (enough, positive (length gs))
              (
                kept 2,
                (λ p. count-append p (g ∷ gs) (take 2 middling)),
                ((λ e. ground (arith, e)), (λ e. ground (arith, e))),
                leb→le min_strong (length (g ∷ gs)) enough,
              )
        | inr few ↦
            simp (few, positive (length gs))
              (
                kept 1,
                (λ p. count-append p (g ∷ gs) (take 1 middling)),
                ((λ e. ground (arith, e)), (λ e. ground (arith, e))),
                (ground (arith, few), omega arith),
              )
      ]

  nothing_kept :
      (good middling : List A)
      → 1 ≤ min_strong
      → (length good ≡ 0) × (length middling ≡ 0)
      → choose good middling ≡ ([], insufficient)
  unfolding choose
  nothing_kept good middling some_strong (none_strong, none_left) =
      let few : leb min_strong 0 ≡ false = ground (arith, some_strong) in
      simp (none_strong, none_left, few) refl

  abbrev pub reaches_strong : A → Bool
  reaches_strong r = leb strong_threshold (score r)

  abbrev pub is_between : A → Bool
  is_between r = leb borderline_threshold (score r) && ltb (score r) strong_threshold

  -- A choice among hits, by how many of them reach the threshold of strong ones, and how many reach
  -- the borderline and not that threshold
  abbrev pub IsFiltered : List A → List A × Level → Type 0
  IsFiltered rs (kept, level) =
      Reaches borderline_threshold kept
      × ((p : A → Bool) → count (λ r. p r && reaches_strong r) rs ≤ count p kept)
      × ((level ≡ insufficient → kept ≡ []) × (kept ≡ [] → level ≡ insufficient))
      × Judged (count reaches_strong rs) (count is_between rs) level

  count-strong_results :
      (p : A → Bool) (rs : List A)
      → count p (strong_results rs) ≡ count (λ r. p r && reaches_strong r) rs
  unfolding strong_results
  count-strong_results p [] = refl
  count-strong_results p (r ∷ rs) = ground (arith, count-strong_results p rs)

  length-strong_results : (rs : List A) → length (strong_results rs) ≡ count reaches_strong rs
  unfolding strong_results
  length-strong_results [] = refl
  length-strong_results (r ∷ rs) = ground (arith, length-strong_results rs)

  length-borderline_results : (rs : List A) → length (borderline_results rs) ≡ count is_between rs
  unfolding borderline_results
  length-borderline_results [] = refl
  length-borderline_results (r ∷ rs) = ground (arith, length-borderline_results rs)

  choice-IsFiltered :
      (rs : List A) (choice : List A × Level)
      → IsChoice (strong_results rs) (borderline_results rs) choice
      → IsFiltered rs choice
  choice-IsFiltered rs (kept, level) (reach, all_strong, nothing, judged) = (
    reach,
    (λ p. omega (arith, all_strong p, count-strong_results p rs)),
    nothing,
    rw (sym (length-strong_results rs), sym (length-borderline_results rs)) judged,
  )

  -- Where at least one strong source is asked for and the borderline is not above the threshold of
  -- strong ones: what is kept reaches the borderline, has every hit whose score is at least the
  -- threshold of strong ones, as often as it was found, and is empty exactly when the level is
  -- insufficient; the level is strong only with enough such hits, borderline only with fewer of them
  -- and some hit that reaches the borderline, and insufficient only with none. When all scores are below
  -- the borderline, nothing is kept.
  pub filter_results_by_score_lem :
      (rs : List A)
      → borderline_threshold ≤ strong_threshold
      → 1 ≤ min_strong
      → IsFiltered rs (filter_results_by_score rs)
        × (IsBelow rs → filter_results_by_score rs ≡ ([], insufficient))
  unfolding filter_results_by_score strong_results borderline_results
  filter_results_by_score_lem [] le some_strong =
      ((tt, (λ p. omega arith), ((λ e. refl), (λ e. refl)), (refl, refl)), λ b. refl)
  filter_results_by_score_lem (r ∷ rs) le some_strong = (
    choice-IsFiltered (r ∷ rs) (choose (strong_results (r ∷ rs)) (borderline_results (r ∷ rs))) (
        choose-IsChoice (strong_results (r ∷ rs)) (borderline_results (r ∷ rs)) some_strong
          (Reaches-strong le (r ∷ rs)) (Reaches-borderline (r ∷ rs))),
    λ b.
        nothing_kept (strong_results (r ∷ rs)) (borderline_results (r ∷ rs)) some_strong
          (IsBelow-nothing le (r ∷ rs) b),
  )
