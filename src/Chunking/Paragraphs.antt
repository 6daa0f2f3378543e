-- ===== src/Chunking/Paragraphs.antt =====
-- etl/chunker/semantic_chunker.py: which paragraphs are in which chunk, and how chunks are numbered.
use Prim.Native.String.{◌++◌ as str_append}
use mathlib.Core.Path.{subst}
use rag_system.Base.{
  ℕ, suc, ◌+◌, ◌≤◌, ltb, Bool, true, false, ◌&&◌, not, List, [], ◌∷◌, ◌++◌, ◌⊎◌, String, str_eq,
  length, filter, map, ◌≡◌, refl, ap, arith, Bool-cases, inl, inr,
}
use rag_system.Chunking.Chunks.{Chunk, Texts}
use rag_system.Chunking.Packing.{
  Section, Splitter, heading_prefix, create_chunk, candidate, pack, chunk_sections,
}

-- The paragraphs of a chunk: the first of them and the others
abbrev pub Group : Type 0
Group = String × List String

abbrev pub flatten : List Group → List String
flatten [] = []
flatten ((p, ps) ∷ groups) = p ∷ (ps ++ flatten groups)

-- The positions count up.
abbrev pub IsNumbered : ℕ → List Chunk → Type 0
IsNumbered n [] = Unit
IsNumbered n (c ∷ cs) = (c.position ≡ n) × IsNumbered (suc n) cs

append-IsNumbered :
    (n : ℕ) (cs ds : List Chunk)
    → IsNumbered n cs
    → IsNumbered (n + length cs) ds
    → IsNumbered n (cs ++ ds)
append-IsNumbered n [] ds h k = subst (λ m. IsNumbered m ds) (omega arith) k
append-IsNumbered n (c ∷ cs) ds (here, h) k =
    (here, append-IsNumbered (suc n) cs ds h (subst (λ m. IsNumbered m ds) (omega arith) k))

room_left :
    (text : String) (tokens most : ℕ)
    → ltb most tokens && not (str_eq text "") ≡ false
    → (str_eq text "" ≡ true) ⊎ (tokens ≤ most)
room_left text tokens most h = elim (Bool-cases (str_eq text "")) [
  | inl nothing ↦ inl nothing
  | inr some_text ↦ inr (ground (arith, h, some_text))
]

module _ (texts : Texts) (splitter : Splitter) (max_tokens : ℕ) where
  abbrev pub extend : String → List String → String
  extend text [] = text
  extend text (p ∷ ps) = extend (candidate text p) ps

  -- Where a paragraph is added to a text, that text is empty or the result has room for its tokens.
  abbrev pub Fits : String → List String → Type 0
  Fits text [] = Unit
  Fits text (p ∷ ps) =
      ((str_eq text "" ≡ true) ⊎ (texts.estimate_tokens (candidate text p) ≤ max_tokens))
      × Fits (candidate text p) ps

  abbrev pub AllFit : String → List Group → Type 0
  AllFit prefix [] = Unit
  AllFit prefix ((p, ps) ∷ groups) = Fits (str_append prefix p) ps × AllFit prefix groups

  abbrev pub has_text : String → Bool
  has_text t = not (splitter.is_blank t)

  -- The first chunk goes on with a text; each other one begins with the prefix and a paragraph.
  abbrev pub IsPacked : String → String → List String → List Chunk → Type 0
  IsPacked prefix text paras chunks =
      (ps : List String) × (groups : List Group) × (filter has_text paras ≡ ps ++ flatten groups)
      × (map (λ c. c.text) chunks
          ≡ filter has_text (extend text ps ∷ map (λ g. extend (str_append prefix g.0) g.1) groups))
      × Fits text ps
      × AllFit prefix groups

  -- The paragraphs that are not blank are cut into groups of neighbours, one for each chunk: none is lost
  -- or repeated, and they keep their order. The first chunk is the text at the start with its
  -- paragraphs, each other one the prefix with its own, and a chunk of which the text is blank is left
  -- out. A paragraph is added only to an empty text or where the result has room for its tokens.
  pub pack-IsPacked :
      (prefix heading : String) (position : ℕ) (text : String) (paras : List String)
      → IsPacked prefix text paras
          (pack texts splitter max_tokens prefix heading position text paras)
  unfolding pack create_chunk
  pack-IsPacked prefix heading position text [] = elim (Bool-cases (splitter.is_blank text)) [
    | inl blank ↦ ([], [], refl, rw blank refl, tt, tt)
    | inr full ↦ ([], [], refl, rw full refl, tt, tt)
  ]
  pack-IsPacked prefix heading position text (p ∷ paras) = elim (Bool-cases (splitter.is_blank p)) [
    | inl blank ↦
        let (ps, groups, split, result, fits, rest) =
          pack-IsPacked prefix heading position text paras in
        (ps, groups, rw blank split, rw blank result, fits, rest)
    | inr full ↦
        elim (Bool-cases
          (ltb max_tokens (texts.estimate_tokens (candidate text p)) && not (str_eq text ""))) [
            | inl ends ↦ elim (Bool-cases (splitter.is_blank text)) [
              | inl nothing ↦
                  let (ps, groups, split, result, fits, rest) =
                    pack-IsPacked prefix heading position (str_append prefix p) paras in
                  (
                    [],
                    (p, ps) ∷ groups,
                    rw full (ap (λ l. p ∷ l) split),
                    rw (full, ends, nothing) result,
                    tt,
                    (fits, rest),
                  )
              | inr some_text ↦
                  let (ps, groups, split, result, fits, rest) =
                    pack-IsPacked prefix heading (suc position) (str_append prefix p) paras in
                  (
                    [],
                    (p, ps) ∷ groups,
                    rw full (ap (λ l. p ∷ l) split),
                    rw (full, ends, some_text) (ap (λ l. text ∷ l) result),
                    tt,
                    (fits, rest),
                  )
            ]
            | inr goes_on ↦
                let (ps, groups, split, result, fits, rest) =
                  pack-IsPacked prefix heading position (candidate text p) paras in
                (
                  p ∷ ps,
                  groups,
                  rw full (ap (λ l. p ∷ l) split),
                  rw (full, goes_on) result,
                  (
                    room_left text (texts.estimate_tokens (candidate text p)) max_tokens goes_on,
                    fits,
                  ),
                  rest,
                )
          ]
  ]

  pack-IsNumbered :
      (prefix heading : String) (position : ℕ) (text : String) (paras : List String)
      → IsNumbered position (pack texts splitter max_tokens prefix heading position text paras)
  unfolding pack create_chunk
  pack-IsNumbered prefix heading position text [] = elim (Bool-cases (splitter.is_blank text)) [
    | inl blank ↦ rw blank tt
    | inr full ↦ rw full (refl, tt)
  ]
  pack-IsNumbered prefix heading position text (p ∷ paras) =
      elim (Bool-cases (splitter.is_blank p)) [
        | inl blank ↦ rw blank (pack-IsNumbered prefix heading position text paras)
        | inr full ↦
            elim (Bool-cases
              (ltb max_tokens (texts.estimate_tokens (candidate text p)) && not (str_eq text ""))) [
                | inl ends ↦ elim (Bool-cases (splitter.is_blank text)) [
                  | inl nothing ↦
                      rw (full, ends, nothing)
                        (pack-IsNumbered prefix heading position (str_append prefix p) paras)
                  | inr some_text ↦
                      rw (full, ends, some_text)
                        (
                          refl,
                          pack-IsNumbered prefix heading (suc position) (str_append prefix p) paras,
                        )
                ]
                | inr goes_on ↦
                    rw (full, goes_on)
                      (pack-IsNumbered prefix heading position (candidate text p) paras)
              ]
      ]

  -- The chunks of a document are numbered from zero on in its order, before short ones are merged.
  pub chunk_sections-IsNumbered :
      (position : ℕ) (sections : List Section)
      → IsNumbered position (chunk_sections texts splitter max_tokens position sections)
  unfolding chunk_sections
  chunk_sections-IsNumbered position [] = tt
  chunk_sections-IsNumbered position (s ∷ sections) =
      let prefix = heading_prefix s in
      let chunks =
        pack texts splitter max_tokens prefix s.heading position prefix
          (splitter.paragraphs s.content) in
      append-IsNumbered position chunks
        (chunk_sections texts splitter max_tokens (position + length chunks) sections)
        (pack-IsNumbered prefix s.heading position prefix (splitter.paragraphs s.content))
        (chunk_sections-IsNumbered (position + length chunks) sections)
