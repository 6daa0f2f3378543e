-- ===== src/Lake/Faults.antt =====
-- etl/indexer/live_vector_lake.py: `sync_document` where the calls of Qdrant raise. The version
-- store is written first, so that the next synchronization finds nothing to do.
use rag_system.Base.{
  ℕ, false, String, some, none, List, [], ◌∷◌, ◌++◌, ◌≡◌, refl, length, map, ◌||◌, str_eq, eq_iff,
  arith, Bool-cases, inl, inr, ap, sym, ◌∙◌,
}
use mathlib.Core.Path.{subst}
use rag_system.Base.Dict
use rag_system.Base.Dict.{Dict, get-put}
use rag_system.Versions.{
  Chunk, Entry, ChunkVersionStore, by_hash, is_changed, added_of, deleted_of, rewritten_of,
  get_last_hash, load_hot_chunks, append_to_cold_storage, update_wal, last_hash_of,
  update_document_chunks, has_some, stored, deleted,
}
use rag_system.Versions.Changes.{by_hash-Distinct}
use rag_system.Versions.Updates.{nothing, load-save_chunks_to_hot, load-append_to_cold_storage}
use rag_system.Lake.{
  Outages, LiveVectorLake, group, index_batch, index_batches, batches, index_chunks, delete_chunks,
  sync_document,
}
use rag_system.Lake.Index.{down, index_chunks-down, delete_chunks-down}
use rag_system.Lake.Sync.{points-sync_document}

module _ {P : Type 0} where
  -- What the one has under a hash, the other has.
  Within : Dict (Chunk P) → Dict (Chunk P) → Type 0
  Within new old = (h : String) (c : Chunk P) → Dict.get h new ≡ some c → Dict.get h old ≡ some c

  tail-Within :
      (k : String) (w : Chunk P) (new old : Dict (Chunk P))
      → Dict.get k new ≡ none
      → Within ((k, w) ∷ new) old
      → Within new old
  unfolding Within Dict.get
  tail-Within k w new old single within h c p = elim (Bool-cases (str_eq k h)) [
    | inl same ↦ ground (arith, p, single, ap (λ i. Dict.get i new) ((eq_iff k h).0 same))
    | inr other ↦ within h c (rw other p)
  ]

  first_of :
      (h : String) (c : Chunk P) (new old : Dict (Chunk P))
      → Within ((h, c) ∷ new) old
      → Dict.get h old ≡ some c
  unfolding Within Dict.get
  first_of h c new old within = within h c (ground (arith, eq_iff h h))

  added_of-Within :
      (new old : Dict (Chunk P)) → Dict.Distinct new → Within new old → added_of old new ≡ []
  unfolding added_of is_changed
  added_of-Within [] old distinct within = refl
  added_of-Within ((h, c) ∷ new) old (single, distinct) within = ground (
    arith,
    added_of-Within new old distinct (tail-Within h c new old single within),
    first_of h c new old within,
    eq_iff c.text c.text,
  )

  deleted_of-Within :
      (old new : Dict (Chunk P)) → Dict.Distinct old → Within old new → deleted_of new old ≡ []
  unfolding deleted_of Dict.contains
  deleted_of-Within [] new distinct within = refl
  deleted_of-Within ((h, c) ∷ old) new (single, distinct) within = ground (
    arith,
    deleted_of-Within old new distinct (tail-Within h c old new single within),
    first_of h c old new within,
  )

  -- An update from the one list of hot chunks to the other adds and deletes nothing.
  abbrev Same : List (Chunk P) → List (Chunk P) → Type 0
  Same old cs =
      let old_map = by_hash old [] in
      let new_map = by_hash cs [] in
      (added_of old_map new_map ≡ []) × (deleted_of new_map old_map ≡ [])

  again-Same : (cs : List (Chunk P)) → Same cs cs
  unfolding Within
  again-Same cs =
      let m = by_hash cs [] in
      let single = by_hash-Distinct cs [] tt in
      (added_of-Within m m single (λ h c p. p), deleted_of-Within m m single (λ h c p. p))

  equal-Same : {hot cs : List (Chunk P)} → hot ≡ cs → Same hot cs
  equal-Same {hot} {cs} p = subst (λ old. Same old cs) (sym p) (again-Same cs)

  update-Same :
      (doc_id : String) (cs : List (Chunk P)) (now : ℕ) (s : ChunkVersionStore P)
      → Same (load_hot_chunks doc_id (update_document_chunks doc_id cs false now s).1) cs
  unfolding update_document_chunks
  update-Same doc_id cs now s =
      let old_map = by_hash (load_hot_chunks doc_id s) [] in
      let new_map = by_hash cs [] in
      let added = added_of old_map new_map in
      let removed = deleted_of new_map old_map in
      let records = rewritten_of now old_map new_map in
      let s₁ = append_to_cold_storage doc_id records s in
      let log = map (stored now none) added ++ map (deleted now) removed in
      elim (Bool-cases (str_eq (get_last_hash doc_id s) "")) [
        | inl first ↦ rw first (equal-Same (load-save_chunks_to_hot doc_id cs now s))
        | inr later ↦ elim (Bool-cases (has_some added || has_some removed)) [
          | inl changed ↦
              let hot = (load-append_to_cold_storage doc_id cs now log s₁).0 in
              rw later rw changed (equal-Same hot)
          | inr same ↦
              let hot = (load-append_to_cold_storage doc_id cs now records s).1 in
              rw later rw same (
                subst (λ cs'. Same cs' cs) (sym hot)
                  (nothing added (ground (arith, same)), nothing removed (ground (arith, same))))
        ]
      ]

  last_hash-update_wal :
      (doc_id : String) (cs : List (Chunk P)) (now : ℕ) (s : ChunkVersionStore P)
      → get_last_hash doc_id (update_wal doc_id cs now s) ≡ last_hash_of cs
  unfolding get_last_hash update_wal
  last_hash-update_wal doc_id cs now s =
      let e : Entry = record {
        last_hash = last_hash_of cs;
        last_modified = now;
        num_chunks = length cs;
      } in
      rw (Dict.get-put_self doc_id e s.wal, get_last_hash) refl

  last_hash_after :
      (doc_id : String) (cs : List (Chunk P)) (now : ℕ) (s : ChunkVersionStore P)
      → get_last_hash doc_id (update_document_chunks doc_id cs false now s).1 ≡ last_hash_of cs
  unfolding update_document_chunks
  last_hash_after doc_id cs now s = elim (Bool-cases (str_eq (get_last_hash doc_id s) "")) [
    | inl first ↦ rw first (last_hash-update_wal doc_id cs now _)
    | inr later ↦ rw later (last_hash-update_wal doc_id cs now _)
  ]

  update_again :
      (doc_id : String) (cs : List (Chunk P)) (now later : ℕ) (s : ChunkVersionStore P)
      → str_eq (last_hash_of cs) "" ≡ false
      → let s' = (update_document_chunks doc_id cs false now s).1 in
        (update_document_chunks doc_id cs false later s').0 ≡ ([], [])
  unfolding update_document_chunks
  update_again doc_id cs now later s named =
      ground (arith, named, last_hash_after doc_id cs now s, update-Same doc_id cs now s)

  idle_sync :
      (o : Outages P) (size : ℕ) (d : Dict (Chunk P))
      → (index_chunks o size [] d ≡ (0, d)) × (delete_chunks o [] d ≡ (0, d))
  unfolding index_chunks delete_chunks batches index_batches index_batch group
  idle_sync o size d = (refl, refl)

  -- Where Qdrant is down during a synchronization without `force` of chunks whose last one has a
  -- hash, the next synchronization of the same chunks reports that it added and deleted nothing,
  -- and the index stays as it was before both, although Qdrant is up again.
  pub lost_sync :
      (doc_id : String) (cs : List (Chunk P)) (now later : ℕ) (o : Outages P) (l : LiveVectorLake P)
      → str_eq (last_hash_of cs) "" ≡ false
      → let l' = (sync_document down doc_id cs false now l).1 in
        let (counts, l'') = sync_document o doc_id cs false later l' in
        (counts ≡ (0, 0)) × (l''.points ≡ l.points)
  lost_sync doc_id cs now later o l named =
      let s = l.version_store in
      let l' = (sync_document down doc_id cs false now l).1 in
      let changes = (update_document_chunks doc_id cs false now s).0 in
      let (_, kept, store) = points-sync_document down doc_id cs false now l in
      let (counts, points, _) = points-sync_document o doc_id cs false later l' in
      let quiet : (update_document_chunks doc_id cs false later l'.version_store).0 ≡ ([], []) =
        ap (λ t. (update_document_chunks doc_id cs false later t).0) store
        ∙ update_again doc_id cs now later s named in
      let (idle, idle') = idle_sync o l'.batch_size l'.points in
      ground (
        arith,
        kept,
        counts,
        points,
        quiet,
        idle,
        idle',
        index_chunks-down l.batch_size changes.0 l.points,
        delete_chunks-down changes.1 l.points,
      )
