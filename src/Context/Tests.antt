-- ===== src/Context/Tests.antt =====
-- Runs of the context's order, budgets and compression, and their theorems at concrete inputs.
use rag_system.Base.{
  ℕ, ◌+◌, ◌≤◌, Bool, List, [], ◌∷◌, ◌++◌, ◌≡◌, refl, count, str_eq, if◌then◌else◌,
}
use rag_system.Context.Reorder.{reorder_for_long_context}
use rag_system.Context.Order.{Descending, reorder_for_long_context_lem}
use rag_system.Context.Budget.{TokenBudget, remaining, fit_chunks_into_budget}
use rag_system.Context.Fitting.{cost, Stops, fit_chunks_into_budget_lem}
use rag_system.Context.Compression.{Texts}

abbrev score : ℕ → ℕ
score n = n

reordered : reorder_for_long_context score (500 ∷ 900 ∷ 300 ∷ 800 ∷ []) ≡ 900 ∷ 500 ∷ 300 ∷ 800 ∷ []
unfolding reorder_for_long_context
reordered = refl

reorder_for_long_context_lem_example :
    let result = reorder_for_long_context score (500 ∷ 900 ∷ 300 ∷ 800 ∷ []) in
    (first : ℕ) × (last : ℕ) × (middle : List ℕ) × (result ≡ first ∷ (middle ++ (last ∷ [])))
    × Descending score (first ∷ last ∷ middle)
    × ((p : ℕ → Bool) → count p result ≡ count p (500 ∷ 900 ∷ 300 ∷ 800 ∷ []))
reorder_for_long_context_lem_example = reorder_for_long_context_lem score 500 900 (300 ∷ 800 ∷ [])

abbrev budget : TokenBudget
budget = record { total = 1000; used = 100; reserved = 200 }

fit_chunks_into_budget_lem_example :
    let (selected, b') = fit_chunks_into_budget score (300 ∷ 150 ∷ 400 ∷ []) budget in
    (rest : List ℕ) × (300 ∷ 150 ∷ 400 ∷ [] ≡ selected ++ rest)
    × (b'.used ≡ budget.used + cost score selected)
    × (budget.used + budget.reserved ≤ budget.total → b'.used + b'.reserved ≤ b'.total)
    × Stops score (remaining budget) b'.used rest
fit_chunks_into_budget_lem_example = fit_chunks_into_budget_lem score (300 ∷ 150 ∷ 400 ∷ []) budget

-- Texts are cut to nothing here, and have one sentence of ten tokens.
abbrev texts : Texts
texts = record {
  strip = λ s. s;
  first = λ n s. "";
  len = λ s. if str_eq s "" then 0 else 10;
  sentences = λ s. s ∷ [];
  join_words = λ ls. elim ls [ [] ↦ "" | l ∷ rest ↦ l ];
  estimate = λ s. 10;
}
