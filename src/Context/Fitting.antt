-- ===== src/Context/Fitting.antt =====
-- proxy/app/core/token_optimizer.py: what is taken into a budget, and what a budget is made of.
use rag_system.Base.{
  ℕ, suc, ◌+◌, ◌-◌, ◌*◌, ◌≤◌, ◌<◌, max, false, ltb, List, [], ◌∷◌, ◌++◌, ◌≡◌, refl, ap, arith,
  Bool-cases, inl, inr,
}
use mathlib.Core.Path.{subst}
use rag_system.Context.Budget.{
  TokenBudget, remaining, can_fit, allocate, Allocation, smart_token_budget, token_budget_from_dict,
  fit_chunks, fit_chunks_into_budget,
}

abbrev pub allocated : Allocation → ℕ
allocated a = a.system_prompt + a.context_total + a.history + a.response

-- From a thousand tokens on the four parts are exactly the tokens that are available, and more than
-- half of them are for the context. From 250 to a thousand the parts are at most what is available.
-- Below two hundred tokens they are more than what is available.
pub smart_token_budget_bounds :
    (available num_chunks : ℕ)
    → let a = smart_token_budget available num_chunks in
      (1000 ≤ available → (allocated a ≡ available) × (available ≤ 2 * a.context_total))
      × (250 ≤ available → allocated a ≤ available)
      × (available < 200 → available < allocated a)
unfolding smart_token_budget
smart_token_budget_bounds available num_chunks =
    (λ h. ground (arith, h), λ h. ground (arith, h), λ h. ground (arith, h))

-- No token fits into the budget that is made of an allocation.
pub token_budget_from_dict_full :
    (a : Allocation) (n : ℕ) → can_fit (suc n) (token_budget_from_dict a) ≡ false
unfolding can_fit token_budget_from_dict remaining
token_budget_from_dict_full a n = ground arith

module _ {A : Type 0} (estimate : A → ℕ) where
  abbrev pub cost : List A → ℕ
  cost [] = 0
  cost (c ∷ cs) = estimate c + cost cs

  -- The first of the chunks that are left out, if there is one
  abbrev pub Stops : ℕ → ℕ → List A → Type 0
  Stops left used [] = Unit
  Stops left used (c ∷ cs) = left < used + estimate c

  fit_chunks_lem :
      (used left : ℕ) (cs : List A)
      → let (selected, used') = fit_chunks estimate used left cs in
        (rest : List A) × (cs ≡ selected ++ rest)
        × (used' ≡ used + cost selected)
        × (used' ≤ max used left)
        × Stops left used' rest
  unfolding fit_chunks
  fit_chunks_lem used left [] = ([], refl, omega arith, omega arith, tt)
  fit_chunks_lem used left (c ∷ cs) =
      let later = fit_chunks_lem (used + estimate c) left cs in
      elim (Bool-cases (ltb left (used + estimate c))) [
        | inl stops ↦ rw stops (c ∷ cs, refl, omega arith, omega arith, ground (arith, stops))
        | inr fits ↦
            let (rest, same, total, bound, stop) = later in
            rw fits (
              rest,
              ap (λ xs. c ∷ xs) same,
              ground (arith, total),
              ground (arith, fits, bound),
              stop,
            )
      ]

  -- What is taken into a budget is a first part of the chunks, and what they cost is added to the
  -- budget, which is not exceeded if it was not before. They stop at the end, or at a chunk that
  -- together with all that is used now costs more than what remained at first.
  pub fit_chunks_into_budget_lem :
      (chunks : List A) (b : TokenBudget)
      → let (selected, b') = fit_chunks_into_budget estimate chunks b in
        (rest : List A) × (chunks ≡ selected ++ rest)
        × (b'.used ≡ b.used + cost selected)
        × (b.used + b.reserved ≤ b.total → b'.used + b'.reserved ≤ b'.total)
        × Stops (remaining b) b'.used rest
  unfolding fit_chunks_into_budget remaining allocate
  fit_chunks_into_budget_lem chunks b =
      let (rest, same, total, bound, stop) =
        fit_chunks_lem b.used (b.total - b.used - b.reserved) chunks in
      (
        rest,
        same,
        ground (arith, total),
        λ h. ground (arith, total, bound, h),
        subst (λ used. Stops (b.total - b.used - b.reserved) used rest) (omega (arith, total)) stop,
      )

  -- From a budget of which half is used nothing is taken, where every chunk costs something, even
  -- though the other half remains.
  pub half_used_takes_nothing :
      (c : A) (cs : List A) (b : TokenBudget)
      → 1 ≤ estimate c
      → b.total ≤ 2 * b.used
      → (fit_chunks_into_budget estimate (c ∷ cs) b).0 ≡ []
  unfolding fit_chunks_into_budget fit_chunks remaining allocate
  half_used_takes_nothing c cs b costs half = ground (arith, costs, half)
