-- ===== src/Lake.antt =====
-- etl/indexer/live_vector_lake.py, over the version store of Versions and the points that
-- etl/indexer/qdrant_hybrid.py keeps in Qdrant. A point is the chunk that it was made of, under
-- the chunk's hash: the id is a UUID of the hash, and different hashes are taken to have different
-- ones. pandas is installed, and Delta Lake is not.
use rag_system.Base.{
  ℕ, zero, suc, ◌+◌, ◌-◌, Bool, true, false, String, Option, some, none, List, [], ◌∷◌, ◌++◌,
  length, filter, map, not, ◌&&◌, ◌||◌, str_eq, any, leb, if◌then◌else◌,
}
use rag_system.Base.Dict
use rag_system.Base.Dict.{Dict}
use rag_system.Versions.Changes.{delete_all}
use rag_system.Versions.{
  Chunk, ChunkVersionStore, or_empty, has_some, by_hash, update_document_chunks, reset_document,
}
pub mod Index
pub mod Sync
pub mod Faults
pub mod Rollback
mod Tests

-- Which calls of Qdrant raise: an upsert of a batch or of one point, a deletion.
pub record Outages (P : Type 0) : Type 0 where
  pub batch_fails : List (Chunk P) → Bool
  pub point_fails : Chunk P → Bool
  pub delete_fails : Bool

-- A row of the history: an upsert keeps the chunk, a deletion its hash.
pub data Row (P : Type 0) : Type 0 where
  upsert : ℕ → Chunk P → Row P
  delete : ℕ → String → Row P

pub record LiveVectorLake (P : Type 0) : Type 0 where
  pub version_store : ChunkVersionStore P
  pub points : Dict (Chunk P)
  pub cold : Dict (List (Row P))
  pub batch_size : ℕ

module _ {P : Type 0} where
  -- `_chunk_to_point` gives a point where neither the hash nor the text is empty.
  unfoldable pub has_point : Chunk P → Bool
  has_point c = not (str_eq c.hash "") && not (str_eq c.text "")

  -- `range(0, len(chunks), batch_size)`, for a batch size of at least 1, without which `range` raises:
  -- the rest of the batch that is being filled, and the batches behind it
  unfoldable pub group : ℕ → ℕ → List (Chunk P) → List (Chunk P) × List (List (Chunk P))
  group size left [] = ([], [])
  group size (suc left) (c ∷ cs) = let (b, bs) = group size left cs in (c ∷ b, bs)
  group size zero (c ∷ cs) = let (b, bs) = group size (size - 1) cs in ([], (c ∷ b) ∷ bs)

  unfoldable pub batches : ℕ → List (Chunk P) → List (List (Chunk P))
  unfolding group
  batches size cs = let (b, bs) = group size size cs in b ∷ bs

  module _ (o : Outages P) where
    unfoldable pub one_by_one : List (Chunk P) → Dict (Chunk P) → ℕ × Dict (Chunk P)
    one_by_one [] d = (0, d)
    one_by_one (c ∷ cs) d =
        let (n, d') = one_by_one cs (if o.point_fails c then d else Dict.put c.hash c d) in
        (if o.point_fails c then n else suc n, d')

    unfoldable pub index_batch : List (Chunk P) → Dict (Chunk P) → ℕ × Dict (Chunk P)
    unfolding has_point one_by_one
    index_batch batch d =
        let ps = filter has_point batch in
        if not (has_some ps)
        then (0, d)
        else if o.batch_fails ps
        then one_by_one ps d
        else (length ps, by_hash ps d)

    unfoldable pub index_batches : List (List (Chunk P)) → Dict (Chunk P) → ℕ × Dict (Chunk P)
    unfolding index_batch
    index_batches [] d = (0, d)
    index_batches (b ∷ bs) d =
        let (n, d') = index_batch b d in let (k, d'') = index_batches bs d' in (n + k, d'')

    unfoldable pub index_chunks : ℕ → List (Chunk P) → Dict (Chunk P) → ℕ × Dict (Chunk P)
    unfolding batches index_batches
    index_chunks size chunks d = index_batches (batches size chunks) d

    unfoldable pub delete_chunks : List String → Dict (Chunk P) → ℕ × Dict (Chunk P)
    delete_chunks hashes d =
        if not (has_some hashes) || o.delete_fails
        then (0, d)
        else (length hashes, delete_all hashes d)

  unfoldable pub append_rows : String → List (Row P) → LiveVectorLake P → LiveVectorLake P
  append_rows doc_id rows l = record l {
    cold = Dict.put doc_id (or_empty (Dict.get doc_id l.cold) ++ rows) l.cold;
  }

  -- The result counts the added and the deleted points. An empty list of rows is not appended.
  unfoldable pub sync_document :
      Outages P → String → List (Chunk P) → Bool → ℕ → LiveVectorLake P → (ℕ × ℕ) × LiveVectorLake P
  unfolding append_rows
  sync_document o doc_id new_chunks force now l =
      let (changes, store) = update_document_chunks doc_id new_chunks force now l.version_store in
      let (added, removed) = changes in
      let (added_count, d) = index_chunks o l.batch_size added l.points in
      let (deleted_count, d') = delete_chunks o removed d in
      let l' = record l { version_store = store; points = d' } in
      let l'' = if has_some added then append_rows doc_id (map (upsert now) added) l' else l' in
      (
        (added_count, deleted_count),
        if has_some removed then append_rows doc_id (map (delete now) removed) l'' else l'',
      )

  unfoldable pub drop : ℕ → List (Row P) → List (Row P)
  drop zero rs = rs
  drop (suc n) [] = []
  drop (suc n) (r ∷ rs) = drop n rs

  -- `df.tail(limit)`
  unfoldable pub get_document_history : String → ℕ → LiveVectorLake P → List (Row P)
  unfolding drop
  get_document_history doc_id limit l =
      let rows = or_empty (Dict.get doc_id l.cold) in drop (length rows - limit) rows

  unfoldable pub is_before : ℕ → Row P → Bool
  is_before t (upsert at c) = leb at t
  is_before t (delete at h) = leb at t

-- The metadata of a chunk: what the columns of the history keep, and who may see it.
pub record Metadata (D : Type 0) : Type 0 where
  pub columns : D
  pub access_level : String
  pub allowed_groups : List String
  pub allowed_users : List String

module _ {D : Type 0} where
  -- A chunk made of a row's columns, with what `_chunk_to_point` puts for the keys that it lacks
  unfoldable pub from_row : Chunk (Metadata D) → Chunk (Metadata D)
  from_row c =
      let m : Metadata D = record {
        columns = c.metadata.columns;
        access_level = "public";
        allowed_groups = [];
        allowed_users = [];
      } in
      record c { metadata = m }

  -- The first chunk of each hash among the upserts, given the hashes that were seen
  unfoldable pub snapshot_chunks : List String → List (Row (Metadata D)) → List (Chunk (Metadata D))
  unfolding from_row
  snapshot_chunks seen [] = []
  snapshot_chunks seen (upsert at c ∷ rows) =
      let is_seen = any (λ h. str_eq h c.hash) seen in
      let rest = snapshot_chunks (if is_seen then seen else c.hash ∷ seen) rows in
      if is_seen then rest else from_row c ∷ rest
  snapshot_chunks seen (delete at h ∷ rows) = snapshot_chunks seen rows

  unfoldable pub rollback_document :
      Outages (Metadata D)
      → String
      → ℕ
      → ℕ
      → LiveVectorLake (Metadata D)
      → ℕ × LiveVectorLake (Metadata D)
  unfolding get_document_history is_before snapshot_chunks
  rollback_document o doc_id to_timestamp now l =
      let history = get_document_history doc_id 100 l in
      let snapshot = filter (is_before to_timestamp) history in
      if not (has_some snapshot)
      then (0, l)
      else let chunks = snapshot_chunks [] snapshot in
        let l' = record l { version_store = reset_document doc_id l.version_store } in
        let (counts, l'') = sync_document o doc_id chunks true now l' in (counts.0, l'')
