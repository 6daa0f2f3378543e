-- ===== src/Retrieval/Embeddings.antt =====
-- proxy/app/core/retrieval.py: EmbeddingCache. The hash of a question and its words are arguments; the
-- threshold is in hundredths.
use rag_system.Base.{
  ℕ, ◌-◌, ◌*◌, max, ltb, leb, ◌==◌, Bool, ◌&&◌, Option, none, some, List, [], ◌∷◌, ◌++◌, String,
  str_eq, length, filter, any, drop, if◌then◌else◌,
}
use rag_system.Base.Dict.{Dict, get, put}

pub record EmbeddingCache (E : Type 0) : Type 0 where
  pub max_size : ℕ
  pub similarity_threshold : ℕ
  pub exact_cache : Dict E
  pub query_embeddings : List (String × E)

pub record Queries : Type 0 where
  pub hash_query : String → String
  pub words : String → List String

unfoldable pub member : String → List String → Bool
member w ws = any (λ v. str_eq v w) ws

-- `set(ws)`
unfoldable pub distinct : List String → List String
distinct [] = []
distinct (w ∷ ws) = let rest = distinct ws in if member w ws then rest else w ∷ rest

-- The test `overlap >= self.similarity_threshold`, where both sets have words
unfoldable pub overlaps : ℕ → List String → List String → Bool
overlaps threshold words1 words2 =
    let common = length (filter (λ w. member w words2) words1) in
    ltb 0 (length words1)
    && ltb 0 (length words2)
    && leb (threshold * max (length words1) (length words2)) (common * 100)

-- `xs[-n:]`, which is all of `xs` where `n` is zero
unfoldable pub latest {ℓ} : {A : Type ℓ} → ℕ → List A → List A
latest n xs = if n == 0 then xs else drop (length xs - n) xs

module _ {E : Type 0} (queries : Queries) where
  unfoldable pub first_similar : ℕ → String → List (String × E) → Option E
  first_similar threshold query [] = none
  first_similar threshold query ((cached_query, cached_embedding) ∷ cached) =
      let words1 = distinct (queries.words query) in
      let words2 = distinct (queries.words cached_query) in
      let rest = first_similar threshold query cached in
      if overlaps threshold words1 words2 then some cached_embedding else rest

  unfoldable pub get_embedding : String → EmbeddingCache E → Option E
  get_embedding query c = elim (get (queries.hash_query query) c.exact_cache) [
    | some e ↦ some e
    | none ↦ first_similar c.similarity_threshold query c.query_embeddings
  ]

  -- Keys of a dictionary are distinct: its first entries are removed.
  unfoldable pub set_embedding : String → E → EmbeddingCache E → EmbeddingCache E
  set_embedding query embedding c =
      let exact = put (queries.hash_query query) embedding c.exact_cache in
      let pairs = c.query_embeddings ++ ((query, embedding) ∷ []) in
      if ltb c.max_size (length exact)
      then record c {
        exact_cache = drop (length exact - c.max_size) exact;
        query_embeddings = latest c.max_size pairs;
      }
      else record c { exact_cache = exact; query_embeddings = pairs }
