-- ===== src/Cache/Semantic.antt =====
-- proxy/app/shared/cache.py: SemanticCache. The embedder, the similarity of two embeddings with its
-- threshold, and the hashes are arguments; a similarity is natural, in any unit.
use Prim.Native.String.{◌++◌ as str_append}
use Prim.Native.String.{slice}
use rag_system.Base.{
  take, ℕ, ◌*◌, leb, ltb, Bool, true, false, ◌||◌, Option, none, some, List, [], ◌∷◌, String,
  str_eq, length, if◌then◌else◌,
}
use rag_system.Cache.Memory.{Manager, cache_get, cache_set}

-- `{"e": …, "r": …, "q": …}`
pub record Entry (E : Type 0) : Type 0 where
  pub embedding : Option E
  pub response : Option String
  pub query : String

-- What the manager holds: entries, the lists of a bucket, and the values of other users
pub data Value (E : Type 0) : Type 0 where
  entry : Entry E → Value E
  ids : List String → Value E
  other : String → Value E

pub record Embedder (E : Type 0) : Type 0 where
  pub compute_embedding : String → Option E
  pub cosine_similarity : E → E → ℕ
  pub bucket_hash : E → String
  pub query_hash : String → String

pub record SemanticCache (E : Type 0) : Type 0 where
  pub cache : Manager (Value E)
  pub threshold : ℕ
  pub ttl : ℕ

pub data Looked : Type 0 where
  hit : String → Looked
  missed : Looked
  attribute_error : Looked

-- `entry_id in bucket_entries_raw`
unfoldable pub is_in : String → List String → Bool
is_in x [] = false
is_in x (y ∷ ys) = str_eq y x || is_in x ys

-- The list of a bucket, empty where nothing or something else is there
unfoldable pub listed : {E : Type 0} → Option (Value E) → List String
listed (some (ids l)) = l
listed (some (entry x)) = []
listed (some (other s)) = []
listed none = []

unfoldable pub inserted : String → List String → List String
inserted entry_id l =
    let longer = entry_id ∷ l in if ltb 50 (length longer) then take 50 longer else longer

module _ {E : Type 0} (embedder : Embedder E) where
  unfoldable pub bucket_key : E → String
  bucket_key e = str_append "sem_cache:bucket:" (embedder.bucket_hash e)

  unfoldable pub entry_key : String → String
  entry_key query = str_append "sem_cache:entry:" (embedder.query_hash query)

  -- The loop over the identifiers of a bucket
  unfoldable pub scan : ℕ → ℕ → E → List String → Manager (Value E) → Looked × Manager (Value E)
  scan now threshold query_emb [] m = (missed, m)
  scan now threshold query_emb (entry_id ∷ entry_ids) m =
      let (found, m') = cache_get now entry_id m in
      let rest = scan now threshold query_emb entry_ids m' in
      elim found [
        | none ↦ rest
        | some (ids l) ↦ (attribute_error, m')
        | some (other s) ↦ (attribute_error, m')
        | some (entry x) ↦ elim x.embedding [
          | none ↦ rest
          | some stored_emb ↦
              if leb threshold (embedder.cosine_similarity query_emb stored_emb)
              then (elim x.response [ none ↦ rest | some response_val ↦ (hit response_val, m') ])
              else rest
        ]
      ]

  unfoldable pub semantic_get : ℕ → String → SemanticCache E → Looked × SemanticCache E
  semantic_get now query c = elim (embedder.compute_embedding query) [
    | none ↦ (missed, c)
    | some query_emb ↦
        let (found, m) = cache_get now (bucket_key query_emb) c.cache in
        elim found [
          | some (ids entry_ids) ↦
              let (looked, m') = scan now c.threshold query_emb (take 200 entry_ids) m in
              (looked, record c { cache = m' })
          | some (entry x) ↦ (missed, record c { cache = m })
          | some (other s) ↦ (missed, record c { cache = m })
          | none ↦ (missed, record c { cache = m })
        ]
  ]

  -- What `set` does with the embedding of the question
  unfoldable pub remember : ℕ → E → String → String → SemanticCache E → SemanticCache E
  remember now query_emb query response c =
      let entry_id = entry_key query in
      let bucket = bucket_key query_emb in
      let x : Entry E = record {
        embedding = some query_emb;
        response = some response;
        query = slice query 0 200;
      } in
      let m : Manager (Value E) = cache_set now entry_id (entry x) c.ttl c.cache in
      let (found, m') = cache_get now bucket m in
      let l = listed found in
      let longer : Manager (Value E) =
        cache_set now bucket (ids (inserted entry_id l)) (c.ttl * 2) m' in
      record c { cache = if is_in entry_id l then m' else longer }

  unfoldable pub semantic_set : ℕ → String → String → SemanticCache E → Bool × SemanticCache E
  semantic_set now query response c = elim (embedder.compute_embedding query) [
    | none ↦ (false, c)
    | some query_emb ↦ (true, remember now query_emb query response c)
  ]
