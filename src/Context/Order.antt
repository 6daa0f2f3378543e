-- ===== src/Context/Order.antt =====
-- proxy/app/core/reorder.py: the reordered chunks are the chunks, with the best two at the ends.
use rag_system.Base.{
  ℕ, ◌≤◌, Bool, true, leb, List, [], ◌∷◌, ◌++◌, ◌≡◌, refl, ap, ◌∙◌, arith, count, All, Bool-cases,
  inl, inr,
}
use mathlib.Core.Path.{subst}
use rag_system.Context.Reorder.{insert, sorted, second_last, reorder_for_long_context}

module _ {A : Type 0} (score : A → ℕ) where
  abbrev pub Below : A → List A → Type 0
  Below c = All (λ d. score d ≤ score c)

  -- The scores go down.
  abbrev pub Descending : List A → Type 0
  Descending [] = Unit
  Descending (c ∷ cs) = Below c cs × Descending cs

  Below-trans : (c d : A) (cs : List A) → score d ≤ score c → Below d cs → Below c cs
  Below-trans c d [] h b = tt
  Below-trans c d (e ∷ cs) h (first, b) = (omega (arith, h, first), Below-trans c d cs h b)

  Below-insert :
      (e c : A) (cs : List A) → score c ≤ score e → Below e cs → Below e (insert score c cs)
  unfolding insert
  Below-insert e c [] h b = (h, tt)
  Below-insert e c (d ∷ cs) h (first, b) = elim (Bool-cases (leb (score d) (score c))) [
    | inl here ↦ rw here (h, (first, b))
    | inr later ↦ rw later (first, Below-insert e c cs h b)
  ]

  insert-Descending : (c : A) (cs : List A) → Descending cs → Descending (insert score c cs)
  unfolding insert
  insert-Descending c [] h = (tt, tt)
  insert-Descending c (d ∷ cs) (below, h) = elim (Bool-cases (leb (score d) (score c))) [
    | inl here ↦
        let le : score d ≤ score c = ground (arith, here) in
        rw here ((le, Below-trans c d cs le below), (below, h))
    | inr later ↦
        let le : score c ≤ score d = ground (arith, later) in
        rw later (Below-insert d c cs le below, insert-Descending c cs h)
  ]

  pub sorted-Descending : (cs : List A) → Descending (sorted score cs)
  unfolding sorted
  sorted-Descending [] = tt
  sorted-Descending (c ∷ cs) = insert-Descending c (sorted score cs) (sorted-Descending cs)

  count-insert :
      (p : A → Bool) (c : A) (cs : List A) → count p (insert score c cs) ≡ count p (c ∷ cs)
  unfolding insert
  count-insert p c [] = refl
  count-insert p c (d ∷ cs) = ground (arith, count-insert p c cs)

  pub count-sorted : (p : A → Bool) (cs : List A) → count p (sorted score cs) ≡ count p cs
  unfolding sorted
  count-sorted p [] = refl
  count-sorted p (c ∷ cs) = ground (arith, count-insert p c (sorted score cs), count-sorted p cs)

  count-last : (p : A → Bool) (cs : List A) (c : A) → count p (cs ++ (c ∷ [])) ≡ count p (c ∷ cs)
  count-last p [] c = refl
  count-last p (d ∷ cs) c = ground (arith, count-last p cs c)

  abbrev size : List A → ℕ
  size = count (λ c. true)

  Ends : List A → Type 0
  Ends cs = (first : A) × (last : A) × (middle : List A) × (cs ≡ first ∷ last ∷ middle)

  two_or_more : (cs : List A) → 2 ≤ size cs → Ends cs
  unfolding Ends
  two_or_more [] h = ground (arith, h)
  two_or_more (c ∷ []) h = ground (arith, h)
  two_or_more (c ∷ d ∷ cs) h = (c, d, cs, refl)

  reorder_as_second_last :
      (c d : A) (cs : List A)
      → reorder_for_long_context score (c ∷ d ∷ cs) ≡ second_last (sorted score (c ∷ d ∷ cs))
  unfolding reorder_for_long_context insert
  reorder_as_second_last c d [] = ground arith
  reorder_as_second_last c d (e ∷ cs) = refl

  -- Two or more chunks come back, each as often as it was there, with the best one first, the second
  -- best last, and the others between them with their scores going down.
  pub reorder_for_long_context_lem :
      (c d : A) (cs : List A)
      → let result = reorder_for_long_context score (c ∷ d ∷ cs) in
        (first : A) × (last : A) × (middle : List A) × (result ≡ first ∷ (middle ++ (last ∷ [])))
        × Descending (first ∷ last ∷ middle)
        × ((p : A → Bool) → count p result ≡ count p (c ∷ d ∷ cs))
  unfolding second_last Ends
  reorder_for_long_context_lem c d cs =
      let xs = sorted score (c ∷ d ∷ cs) in
      let all = count-sorted (λ c. true) (c ∷ d ∷ cs) in
      let (first, last, middle, same) = two_or_more xs (omega (arith, all)) in
      let result : reorder_for_long_context score (c ∷ d ∷ cs) ≡ first ∷ (middle ++ (last ∷ [])) =
        reorder_as_second_last c d cs ∙ ap second_last same in
      (
        first,
        last,
        middle,
        result,
        subst Descending same (sorted-Descending (c ∷ d ∷ cs)),
        λ p.
            ap (count p) result
            ∙ ground
                (arith, count-last p middle last, ap (count p) same, count-sorted p (c ∷ d ∷ cs)),
      )
