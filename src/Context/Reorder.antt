-- ===== src/Context/Reorder.antt =====
-- proxy/app/core/reorder.py. A chunk is of any type with a score, in thousandths.
use rag_system.Base.{ℕ, leb, List, [], ◌∷◌, ◌++◌, if◌then◌else◌}

-- The second of three or more is put last.
unfoldable pub second_last : {A : Type 0} → List A → List A
second_last [] = []
second_last (c ∷ []) = c ∷ []
second_last (first ∷ second ∷ middle) = first ∷ (middle ++ (second ∷ []))

module _ {A : Type 0} (score : A → ℕ) where
  unfoldable pub insert : A → List A → List A
  insert c [] = c ∷ []
  insert c (d ∷ cs) =
      let rest = insert c cs in if leb (score d) (score c) then c ∷ d ∷ cs else d ∷ rest

  -- `sorted(chunks, key=score, reverse=True)`, which keeps the order of equal scores
  unfoldable pub sorted : List A → List A
  unfolding insert
  sorted [] = []
  sorted (c ∷ cs) = insert c (sorted cs)

  unfoldable pub reorder_for_long_context : List A → List A
  unfolding sorted second_last
  reorder_for_long_context [] = []
  reorder_for_long_context (c ∷ []) = c ∷ []
  reorder_for_long_context (c ∷ d ∷ []) = sorted (c ∷ d ∷ [])
  reorder_for_long_context (c ∷ d ∷ e ∷ cs) = second_last (sorted (c ∷ d ∷ e ∷ cs))
