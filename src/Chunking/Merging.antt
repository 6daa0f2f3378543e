-- ===== src/Chunking/Merging.antt =====
-- etl/chunker/semantic_chunker.py: what _merge_short_chunks makes of the chunks.
use Prim.Native.String.{◌++◌ as str_append}
use mathlib.Core.Path.{subst}
use rag_system.Base.{
  ℕ, ◌+◌, ◌≤◌, ◌<◌, leb, ltb, true, false, List, [], ◌∷◌, ◌++◌, map, ◌≡◌, ◌⊎◌, ◌∙◌, String, refl,
  sym, ap, arith, Bool-cases, inl, inr,
}
use rag_system.Chunking.Chunks.{
  Chunk, Texts, with_text, mergeable, joined, merge_from, merge_short_chunks,
}

-- Neighbouring chunks: the first of them and the others
abbrev pub Group : Type 0
Group = Chunk × List Chunk

abbrev pub flatten : List Group → List Chunk
flatten [] = []
flatten ((c, cs) ∷ groups) = c ∷ (cs ++ flatten groups)

-- A text with the texts of chunks behind it, each behind an empty line
abbrev pub text_from : String → List Chunk → String
text_from t [] = t
text_from t (d ∷ ds) = text_from (str_append t (str_append "\n\n" d.text)) ds

abbrev pub gathered : (Chunk → List String) → List Chunk → List String
gathered f [] = []
gathered f (d ∷ ds) = f d ++ gathered f ds

append_nil : (xs : List String) → xs ++ [] ≡ xs
append_nil [] = refl
append_nil (x ∷ xs) = ap (λ l. x ∷ l) (append_nil xs)

append_assoc : (xs ys zs : List String) → (xs ++ ys) ++ zs ≡ xs ++ (ys ++ zs)
append_assoc [] ys zs = refl
append_assoc (x ∷ xs) ys zs = ap (λ l. x ∷ l) (append_assoc xs ys zs)

module _ (texts : Texts) (max_tokens min_chunk_tokens : ℕ) where
  abbrev pub join : Chunk → List Chunk → Chunk
  join c [] = c
  join c (d ∷ ds) = join (joined texts max_tokens min_chunk_tokens c d) ds

  -- Two chunks that are within the largest size together, and one of them below the smallest
  abbrev pub Small : Chunk → Chunk → Type 0
  Small c d =
      (c.tokens_approx + d.tokens_approx ≤ max_tokens)
      × ((c.tokens_approx < min_chunk_tokens) ⊎ (d.tokens_approx < min_chunk_tokens))

  abbrev pub NotSmall : Chunk → Chunk → Type 0
  NotSmall c d =
      (max_tokens < c.tokens_approx + d.tokens_approx)
      ⊎ ((min_chunk_tokens ≤ c.tokens_approx) × (min_chunk_tokens ≤ d.tokens_approx))

  Small-mergeable :
      (c d : Chunk) → mergeable texts max_tokens min_chunk_tokens c d ≡ true → Small c d
  unfolding mergeable
  Small-mergeable c d h = (
    ground (arith, h),
    elim (Bool-cases (ltb c.tokens_approx min_chunk_tokens)) [
      | inl first ↦ inl (ground (arith, first))
      | inr other ↦ inr (ground (arith, h, other))
    ],
  )

  NotSmall-mergeable :
      (c d : Chunk) → mergeable texts max_tokens min_chunk_tokens c d ≡ false → NotSmall c d
  unfolding mergeable
  NotSmall-mergeable c d h =
      elim (Bool-cases (leb (c.tokens_approx + d.tokens_approx) max_tokens)) [
        | inl within ↦ inr (ground (arith, h, within), ground (arith, h, within))
        | inr beyond ↦ inl (ground (arith, beyond))
      ]

  -- Each chunk is small enough for what stands before it in its group.
  abbrev pub Fits : Chunk → List Chunk → Type 0
  Fits c [] = Unit
  Fits c (d ∷ ds) = Small c d × Fits (joined texts max_tokens min_chunk_tokens c d) ds

  -- No group may be merged with the first chunk of the one behind it.
  abbrev pub IsMerged : List Group → Type 0
  IsMerged [] = Unit
  IsMerged ((c, cs) ∷ []) = Fits c cs
  IsMerged ((c, cs) ∷ (d, ds) ∷ groups) =
      Fits c cs × NotSmall (join c cs) d × IsMerged ((d, ds) ∷ groups)

  abbrev pub Grouped : Chunk → List Chunk → List Chunk → Type 0
  Grouped c cs result =
      (xs : List Chunk) × (groups : List Group) × (cs ≡ xs ++ flatten groups)
      × (result ≡ map (λ g. join g.0 g.1) ((c, xs) ∷ groups))
      × IsMerged ((c, xs) ∷ groups)

  longer-IsMerged :
      (c d : Chunk) (xs : List Chunk) (groups : List Group)
      → Small c d
      → IsMerged ((joined texts max_tokens min_chunk_tokens c d, xs) ∷ groups)
      → IsMerged ((c, d ∷ xs) ∷ groups)
  longer-IsMerged c d xs [] m h = (m, h)
  longer-IsMerged c d xs ((e, es) ∷ groups) m (fits, apart, rest) = ((m, fits), apart, rest)

  merge_from-Grouped :
      (c : Chunk) (cs : List Chunk)
      → Grouped c cs (merge_from texts max_tokens min_chunk_tokens c cs)
  unfolding merge_from
  merge_from-Grouped c [] = ([], [], refl, refl, tt)
  merge_from-Grouped c (d ∷ ds) =
      elim (Bool-cases (mergeable texts max_tokens min_chunk_tokens c d)) [
        | inl yes_merge ↦
            let (xs, groups, split, result, merged) =
              merge_from-Grouped (joined texts max_tokens min_chunk_tokens c d) ds in
            (
              d ∷ xs,
              groups,
              ap (λ l. d ∷ l) split,
              rw yes_merge result,
              longer-IsMerged c d xs groups (Small-mergeable c d yes_merge) merged,
            )
        | inr apart ↦
            let (xs, groups, split, result, merged) = merge_from-Grouped d ds in
            (
              [],
              (d, xs) ∷ groups,
              ap (λ l. d ∷ l) split,
              rw apart (ap (λ l. c ∷ l) result),
              (tt, NotSmall-mergeable c d apart, merged),
            )
      ]

  -- The chunk has the texts and the lists of the group, and the title and the position of its first.
  abbrev pub Merge : Group → Chunk → Type 0
  Merge (c, cs) e =
      (e.text ≡ text_from c.text cs)
      × (e.keywords ≡ c.keywords ++ gathered (λ d. d.keywords) cs)
      × (e.entities ≡ c.entities ++ gathered (λ d. d.entities) cs)
      × (e.hypothetical_questions
          ≡ c.hypothetical_questions ++ gathered (λ d. d.hypothetical_questions) cs)
      × (e.title ≡ c.title)
      × (e.position ≡ c.position)

  abbrev pub Merges : List Group → List Chunk → Type 0
  Merges [] [] = Unit
  Merges [] (e ∷ es) = ⊥
  Merges (g ∷ groups) [] = ⊥
  Merges (g ∷ groups) (e ∷ es) = Merge g e × Merges groups es

  Merge-join : (c : Chunk) (cs : List Chunk) → Merge (c, cs) (join c cs)
  unfolding joined with_text
  Merge-join c [] = (
    refl,
    sym (append_nil c.keywords),
    sym (append_nil c.entities),
    sym (append_nil c.hypothetical_questions),
    refl,
    refl,
  )
  Merge-join c (d ∷ ds) =
      let (text, keywords, entities, questions, title, position) =
        Merge-join (joined texts max_tokens min_chunk_tokens c d) ds in
      (
        text,
        keywords ∙ append_assoc c.keywords d.keywords _,
        entities ∙ append_assoc c.entities d.entities _,
        questions ∙ append_assoc c.hypothetical_questions d.hypothetical_questions _,
        title,
        position,
      )

  Merges-join : (groups : List Group) → Merges groups (map (λ g. join g.0 g.1) groups)
  Merges-join [] = tt
  Merges-join ((c, cs) ∷ groups) = (Merge-join c cs, Merges-join groups)

  -- The merged chunks are groups of neighbours: every chunk is in one of them, in the order of the
  -- document. A merged chunk has the texts of its group, one behind the other with an empty line
  -- between them, all their keywords, entities and questions, and the title and the position of the
  -- first of them. Within a group each chunk and what stands before it, merged, are within the largest
  -- size together, and one of them is below the smallest; of a group, merged, and the chunk behind it,
  -- this does not hold.
  pub merge_short_chunks_lem :
      (chunks : List Chunk)
      → (groups : List Group) × (flatten groups ≡ chunks)
        × Merges groups (merge_short_chunks texts max_tokens min_chunk_tokens chunks)
        × IsMerged groups
  unfolding merge_short_chunks
  merge_short_chunks_lem [] = ([], refl, tt, tt)
  merge_short_chunks_lem (c ∷ cs) =
      let (xs, groups, split, result, merged) = merge_from-Grouped c cs in
      (
        (c, xs) ∷ groups,
        ap (λ l. c ∷ l) (sym split),
        subst (Merges ((c, xs) ∷ groups)) (sym result) (Merges-join ((c, xs) ∷ groups)),
        merged,
      )
