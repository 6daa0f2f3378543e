-- ===== src/Lake/Rollback.antt =====
-- etl/indexer/live_vector_lake.py: what `rollback_document` restores, and what it leaves.
use rag_system.Base.{
  ℕ, true, false, Bool, String, Option, some, none, List, [], ◌∷◌, ◌≡◌, refl, length, filter, any,
  str_eq, eq_iff, arith, Bool-cases, inl, inr, ap, ◌∙◌, if◌then◌else◌, All,
}
use rag_system.Base.Dict
use rag_system.Base.Dict.{Dict, get-put}
use rag_system.Versions.{
  Chunk, by_hash, load_hot_chunks, update_document_chunks, reset_document, has_some,
}
use rag_system.Versions.Updates.{get-by_hash, load-save_chunks_to_hot}
use rag_system.Lake.{
  LiveVectorLake, Row, upsert, delete, index_chunks, sync_document, get_document_history, is_before,
  Metadata, from_row, snapshot_chunks, rollback_document,
}
use rag_system.Lake.Index.{running, HavePoints, index_chunks_all, delete_chunks-running}
use rag_system.Lake.Sync.{points-sync_document}

module _ {D : Type 0} where
  abbrev pub wrote : String → Row (Metadata D) → Bool
  wrote h (upsert at c) = str_eq c.hash h
  wrote h (delete at k) = false

  abbrev has_hash : String → Chunk (Metadata D) → Bool
  has_hash h c = str_eq c.hash h

  -- A hash is in the snapshot where some row wrote it, whatever rows deleted it.
  any-snapshot_chunks :
      (h : String) (seen : List String) (rows : List (Row (Metadata D)))
      → any (has_hash h) (snapshot_chunks seen rows)
        ≡ (if any (λ k. str_eq k h) seen then false else any (wrote h) rows)
  unfolding snapshot_chunks from_row
  any-snapshot_chunks h seen [] = ground arith
  any-snapshot_chunks h seen (delete at k ∷ rows) = any-snapshot_chunks h seen rows
  any-snapshot_chunks h seen (upsert at c ∷ rows) =
      let later = any-snapshot_chunks h seen rows in
      let later' = any-snapshot_chunks h (c.hash ∷ seen) rows in
      elim (Bool-cases (str_eq c.hash h)) [
        | inl same ↦
            let here = ap (λ i. any (λ k. str_eq k i) seen) ((eq_iff c.hash h).0 same) in
            ground (arith, same, here, later, later')
        | inr other ↦ ground (arith, other, later, later')
      ]

  contains-by_hash :
      (h : String) (cs : List (Chunk (Metadata D))) (d : Dict (Chunk (Metadata D)))
      → Dict.contains h (by_hash cs d) ≡ (if any (has_hash h) cs then true else Dict.contains h d)
  unfolding by_hash Dict.contains
  contains-by_hash h [] d = refl
  contains-by_hash h (c ∷ cs) d =
      ground (arith, contains-by_hash h cs (Dict.put c.hash c d), get-put c.hash h c d)

  forced_points :
      (doc_id : String) (cs : List (Chunk (Metadata D))) (now : ℕ) (l : LiveVectorLake (Metadata D))
      → HavePoints cs
      → let (counts, l') = sync_document running doc_id cs true now l in
        (counts.0 ≡ length cs)
        × (load_hot_chunks doc_id l'.version_store ≡ cs)
        × (l'.points ≡ by_hash cs l.points)
  unfolding update_document_chunks
  forced_points doc_id cs now l points =
      let (counts, kept, store) = points-sync_document running doc_id cs true now l in
      let added = index_chunks_all l.batch_size cs l.points points in
      (
        ap (λ n. n.0) counts ∙ ap (λ r. r.0) added,
        ap (load_hot_chunks doc_id) store ∙ load-save_chunks_to_hot doc_id cs now l.version_store,
        kept
            ∙ ap (λ r. r.1)
                (delete_chunks-running [] (index_chunks running l.batch_size cs l.points).1)
            ∙ ap (λ r. r.1) added,
      )

  get_either :
      (h : String) (cs : List (Chunk (Metadata D))) (d : Dict (Chunk (Metadata D)))
      → Dict.get h (by_hash cs d)
        ≡ (if any (has_hash h) cs then Dict.get h (by_hash cs []) else Dict.get h d)
  unfolding Dict.contains Dict.get
  get_either h cs d = ground (arith, get-by_hash h cs d, contains-by_hash h cs [])

  restored :
      (h : String) (rows : List (Row (Metadata D)))
      → Dict.contains h (by_hash (snapshot_chunks [] rows) []) ≡ any (wrote h) rows
  unfolding Dict.contains Dict.get
  restored h rows =
      ground (arith, contains-by_hash h (snapshot_chunks [] rows) [], any-snapshot_chunks h [] rows)

  either_row :
      (h : String) (rows : List (Row (Metadata D))) (d : Dict (Chunk (Metadata D)))
      → let cs = snapshot_chunks [] rows in
        Dict.get h (by_hash cs d)
        ≡ (if any (wrote h) rows then Dict.get h (by_hash cs []) else Dict.get h d)
  either_row h rows d =
      ground (arith, get_either h (snapshot_chunks [] rows) d, any-snapshot_chunks h [] rows)

  pub rollback_document_lem :
      (doc_id : String) (t now : ℕ) (l : LiveVectorLake (Metadata D))
      → let rows = filter (is_before t) (get_document_history doc_id 100 l) in
        HavePoints (snapshot_chunks [] rows)
        → has_some rows ≡ true
        → let (added, l') = rollback_document running doc_id t now l in
          let cs = snapshot_chunks [] rows in
          (added ≡ length cs)
          × (load_hot_chunks doc_id l'.version_store ≡ cs)
          × ((h : String)
              → (Dict.contains h (by_hash cs []) ≡ any (wrote h) rows)
                × (Dict.get h l'.points ≡ (
                    if any (wrote h) rows
                    then Dict.get h (by_hash cs [])
                    else Dict.get h l.points)))
  unfolding rollback_document
  rollback_document_lem doc_id t now l points some_row =
      let rows = filter (is_before t) (get_document_history doc_id 100 l) in
      let cs = snapshot_chunks [] rows in
      let l₀ : LiveVectorLake (Metadata D) = record l {
        version_store = reset_document doc_id l.version_store;
      } in
      let (added, hot, put) = forced_points doc_id cs now l₀ points in
      rw some_row
        (added, hot, λ h. (restored h rows, ap (Dict.get h) put ∙ either_row h rows l.points))

  Public : List (Chunk (Metadata D)) → Type 0
  Public = All (λ c. c.metadata.access_level ≡ "public")

  snapshot_chunks-Public :
      (seen : List String) (rows : List (Row (Metadata D))) → Public (snapshot_chunks seen rows)
  unfolding snapshot_chunks Public from_row
  snapshot_chunks-Public seen [] = tt
  snapshot_chunks-Public seen (delete at h ∷ rows) = snapshot_chunks-Public seen rows
  snapshot_chunks-Public seen (upsert at c ∷ rows) =
      elim (Bool-cases (any (λ h. str_eq h c.hash) seen)) [
        | inl again ↦ rw again (snapshot_chunks-Public seen rows)
        | inr first ↦ rw first (refl, snapshot_chunks-Public (c.hash ∷ seen) rows)
      ]

  abbrev level : Option (Chunk (Metadata D)) → String
  level none = "public"
  level (some c) = c.metadata.access_level

  level-by_hash :
      (h : String) (cs : List (Chunk (Metadata D))) (d : Dict (Chunk (Metadata D)))
      → Public cs
      → level (Dict.get h d) ≡ "public"
      → level (Dict.get h (by_hash cs d)) ≡ "public"
  unfolding by_hash Public
  level-by_hash h [] d all here = here
  level-by_hash h (c ∷ cs) d (own, all) here =
      level-by_hash h cs (Dict.put c.hash c d) all (ground (arith, own, here, get-put c.hash h c d))

  -- Where no call of Qdrant raises, each restored chunk has a hash and a text, and some row is
  -- early enough: after `rollback_document` every chunk that an early row wrote is public in the
  -- index, whatever its access level was.
  pub rollback_document_publishes :
      (doc_id : String) (t now : ℕ) (l : LiveVectorLake (Metadata D)) (h : String)
      (c : Chunk (Metadata D))
      → let rows = filter (is_before t) (get_document_history doc_id 100 l) in
        HavePoints (snapshot_chunks [] rows)
        → has_some rows ≡ true
        → any (wrote h) rows ≡ true
        → Dict.get h (rollback_document running doc_id t now l).1.points ≡ some c
        → c.metadata.access_level ≡ "public"
  unfolding Dict.get
  rollback_document_publishes doc_id t now l h c points some_row early found =
      let rows = filter (is_before t) (get_document_history doc_id 100 l) in
      let cs = snapshot_chunks [] rows in
      let (_, _, texts) = rollback_document_lem doc_id t now l points some_row in
      ground
        (arith, early, found, texts h, level-by_hash h cs [] (snapshot_chunks-Public [] rows) refl)
