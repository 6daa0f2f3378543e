-- ===== src/Chunking/Losses.antt =====
-- etl/chunker/semantic_chunker.py: which elements AdaptiveChunker merges, and which it loses.
use rag_system.Base.{
  ℕ, leb, true, false, List, [], ◌∷◌, ◌++◌, String, if◌then◌else◌, ◌≡◌, refl, sym, ap, ◌∙◌,
  Bool-cases, inl, inr,
}
use rag_system.Chunking.Elements.{
  Element, continues, extended, merge_elements, merge_small_elements,
}

-- Neighbouring elements: the first of them and the others
abbrev pub Run : Type 0
Run = Element × List Element

abbrev pub flatten : List Run → List Element
flatten [] = []
flatten ((e, es) ∷ runs) = e ∷ (es ++ flatten runs)

module _ (len : String → ℕ) (target_chunk_size min_chunk_size : ℕ) where
  abbrev pub join : Element → List Element → Element
  join e [] = e
  join e (x ∷ xs) = join (extended len target_chunk_size min_chunk_size e x) xs

  -- Each element continues what stands before it in its run.
  abbrev pub Continues : Element → List Element → Type 0
  Continues e [] = Unit
  Continues e (x ∷ xs) =
      (continues len target_chunk_size min_chunk_size e x ≡ true)
      × Continues (extended len target_chunk_size min_chunk_size e x) xs

  -- No run is continued by the first element of the one behind it.
  abbrev pub AreRuns : List Run → Type 0
  AreRuns [] = Unit
  AreRuns ((e, es) ∷ []) = Continues e es
  AreRuns ((e, es) ∷ (x, xs) ∷ runs) =
      Continues e es
      × (continues len target_chunk_size min_chunk_size (join e es) x ≡ false)
      × AreRuns ((x, xs) ∷ runs)

  -- The joined runs that are long enough, and the last one
  abbrev pub kept : List Run → List Element
  kept [] = []
  kept ((e, es) ∷ []) = join e es ∷ []
  kept ((e, es) ∷ (x, xs) ∷ runs) =
      if leb min_chunk_size (len (join e es).text)
      then join e es ∷ kept ((x, xs) ∷ runs)
      else kept ((x, xs) ∷ runs)

  abbrev pub HasRuns : Element → List Element → List Element → Type 0
  HasRuns e es result =
      (xs : List Element) × (runs : List Run) × (es ≡ xs ++ flatten runs)
      × (result ≡ kept ((e, xs) ∷ runs))
      × AreRuns ((e, xs) ∷ runs)

  longer-AreRuns :
      (e x : Element) (xs : List Element) (runs : List Run)
      → continues len target_chunk_size min_chunk_size e x ≡ true
      → AreRuns ((extended len target_chunk_size min_chunk_size e x, xs) ∷ runs)
      → AreRuns ((e, x ∷ xs) ∷ runs)
  longer-AreRuns e x xs [] h r = (h, r)
  longer-AreRuns e x xs ((y, ys) ∷ runs) h (first, apart, rest) = ((h, first), apart, rest)

  longer-kept :
      (e x : Element) (xs : List Element) (runs : List Run)
      → kept ((extended len target_chunk_size min_chunk_size e x, xs) ∷ runs)
        ≡ kept ((e, x ∷ xs) ∷ runs)
  longer-kept e x xs [] = refl
  longer-kept e x xs (y ∷ runs) = refl

  merge_elements-HasRuns :
      (e : Element) (es : List Element)
      → HasRuns e es (merge_elements len target_chunk_size min_chunk_size e es)
  unfolding merge_elements
  merge_elements-HasRuns e [] = ([], [], refl, refl, tt)
  merge_elements-HasRuns e (x ∷ es) =
      elim (Bool-cases (continues len target_chunk_size min_chunk_size e x)) [
        | inl goes_on ↦
            let (xs, runs, split, result, are) =
              merge_elements-HasRuns (extended len target_chunk_size min_chunk_size e x) es in
            (
              x ∷ xs,
              runs,
              ap (λ l. x ∷ l) split,
              rw goes_on (result ∙ longer-kept e x xs runs),
              longer-AreRuns e x xs runs goes_on are,
            )
        | inr apart ↦
            let (xs, runs, split, result, are) = merge_elements-HasRuns x es in
            ([], (x, xs) ∷ runs, ap (λ l. x ∷ l) split, rw (apart, result) refl, (tt, apart, are))
      ]

  -- The elements are runs of neighbours, of which each element continues what stands before it, and
  -- none is continued by what stands behind it. Of the runs, joined, those that are shorter than the
  -- smallest size are lost, but for the last one, which is kept.
  pub merge_small_elements_lem :
      (elements : List Element)
      → (runs : List Run) × (flatten runs ≡ elements)
        × (merge_small_elements len target_chunk_size min_chunk_size elements ≡ kept runs)
        × AreRuns runs
  unfolding merge_small_elements
  merge_small_elements_lem [] = ([], refl, refl, tt)
  merge_small_elements_lem (e ∷ es) =
      let (xs, runs, split, result, are) = merge_elements-HasRuns e es in
      ((e, xs) ∷ runs, ap (λ l. e ∷ l) (sym split), result, are)
