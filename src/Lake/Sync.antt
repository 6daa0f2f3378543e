-- ===== src/Lake/Sync.antt =====
-- etl/indexer/live_vector_lake.py: `sync_document` where no call of Qdrant raises.
use rag_system.Base.{
  ◌≤◌, ℕ, true, false, String, Option, some, none, List, [], ◌∷◌, ◌≡◌, refl, Bool, length, str_eq,
  eq_iff, arith, Option-cases, Bool-cases, inl, inr, ap, sym, ◌∙◌, if◌then◌else◌,
}
use rag_system.Base.Dict
use rag_system.Base.Dict.{Dict, get-put}
use rag_system.Versions.{
  Chunk, ChunkVersionStore, by_hash, is_changed, added_of, deleted_of, get_last_hash,
  load_hot_chunks, update_document_chunks,
}
use rag_system.Versions.Changes.{
  text_of, delete_all, get-delete_all, mem-deleted_of, get-added_of, by_hash-Keyed,
  by_hash-Distinct,
}
use rag_system.Versions.Updates.{get-by_hash, unchanged, update_document_chunks-Synced}
use rag_system.Lake.{
  Outages, LiveVectorLake, has_point, index_chunks, delete_chunks, append_rows, sync_document,
}
use rag_system.Lake.Index.{running, HavePoints, index_chunks_all, delete_chunks-running}

module _ {P : Type 0} where
  -- Each value has a hash and a text.
  Pointed : Dict (Chunk P) → Type 0
  Pointed [] = Unit
  Pointed ((h, c) ∷ d) = (has_point c ≡ true) × Pointed d

  put-Pointed :
      (h : String) (c : Chunk P) (d : Dict (Chunk P))
      → has_point c ≡ true
      → Pointed d
      → Pointed (Dict.put h c d)
  unfolding Dict.put Pointed
  put-Pointed h c [] own p = (own, tt)
  put-Pointed h c ((k, w) ∷ d) own (first, p) = elim (Bool-cases (str_eq k h)) [
    | inl same ↦ rw same (own, p)
    | inr other ↦ rw other (first, put-Pointed h c d own p)
  ]

  by_hash-Pointed :
      (cs : List (Chunk P)) (d : Dict (Chunk P))
      → HavePoints cs
      → Pointed d
      → Pointed (by_hash cs d)
  unfolding by_hash
  by_hash-Pointed [] d h p = p
  by_hash-Pointed (c ∷ cs) d (own, h) p =
      by_hash-Pointed cs (Dict.put c.hash c d) h (put-Pointed c.hash c d own p)

  added_of-HavePoints :
      (old_map new_map : Dict (Chunk P)) → Pointed new_map → HavePoints (added_of old_map new_map)
  unfolding added_of Pointed
  added_of-HavePoints old_map [] p = tt
  added_of-HavePoints old_map ((h, c) ∷ new_map) (own, p) =
      let rest = added_of-HavePoints old_map new_map p in
      elim (Bool-cases (is_changed (Dict.get h old_map) c)) [
        | inl changed ↦ rw changed (own, rest)
        | inr same ↦ rw same rest
      ]

  -- The index has the text of each hot chunk of the document.
  abbrev pub Indexed : String → LiveVectorLake P → Type 0
  Indexed doc_id l =
      (h : String) (o : Chunk P)
      → Dict.get h (by_hash (load_hot_chunks doc_id l.version_store) []) ≡ some o
      → text_of (Dict.get h l.points) ≡ some o.text

  -- The text that a synchronization leaves under a hash: that of the new chunk, or nothing where
  -- only the old chunks had the hash, or what was there.
  abbrev pub text_after : String → List (Chunk P) → List (Chunk P) → Dict (Chunk P) → Option String
  text_after h old cs d = elim (Dict.get h (by_hash cs [])) [
    | some c ↦ some c.text
    | none ↦ if Dict.contains h (by_hash old []) then none else text_of (Dict.get h d)
  ]

  pub points-sync_document :
      (o : Outages P) (doc_id : String) (cs : List (Chunk P)) (force : Bool) (now : ℕ)
      (l : LiveVectorLake P)
      → let (added, removed) = (update_document_chunks doc_id cs force now l.version_store).0 in
        let result = sync_document o doc_id cs force now l in
        let l' = result.1 in
        (result.0 ≡ (
          (index_chunks o l.batch_size added l.points).0,
          (delete_chunks o removed (index_chunks o l.batch_size added l.points).1).0,
        ))
        × (l'.points ≡ (delete_chunks o removed (index_chunks o l.batch_size added l.points).1).1)
        × (l'.version_store ≡ (update_document_chunks doc_id cs force now l.version_store).1)
  unfolding sync_document append_rows
  points-sync_document o doc_id cs force now l = ground (arith)

  compared :
      (h : String) (old cs : List (Chunk P)) (d : Dict (Chunk P))
      → ((o : Chunk P)
          → Dict.get h (by_hash old []) ≡ some o
          → text_of (Dict.get h d) ≡ some o.text)
      → let old_map = by_hash old [] in
        let new_map = by_hash cs [] in
        text_of (
          Dict.get h
            (delete_all (deleted_of new_map old_map) (by_hash (added_of old_map new_map) d)))
        ≡ text_after h old cs d
  unfolding is_changed Dict.contains
  compared h old cs d indexed =
      let old_map = by_hash old [] in
      let new_map = by_hash cs [] in
      let gone = deleted_of new_map old_map in
      let added = added_of old_map new_map in
      let put =
        get-added_of h old_map new_map d (by_hash-Distinct cs [] tt) (by_hash-Keyed cs [] tt) in
      let left = get-delete_all h gone (by_hash added d) in
      let named = mem-deleted_of h new_map old_map in
      elim (Option-cases (Dict.get h new_map)) [
        | inl p ↦ ground (arith, p, put, left, named)
        | inr (c, p) ↦ elim (Option-cases (Dict.get h old_map)) [
          | inl q ↦ ground (arith, p, q, put, left, named)
          | inr (o, q) ↦ ground (
            arith,
            p,
            q,
            put,
            left,
            named,
            indexed o q,
            unchanged (Dict.get h old_map) c,
            eq_iff o.text c.text,
          )
        ]
      ]

  first_time :
      (h : String) (cs : List (Chunk P)) (d : Dict (Chunk P))
      → text_of (Dict.get h (by_hash cs d)) ≡ text_after h [] cs d
  unfolding by_hash Dict.contains Dict.get
  first_time h cs d = ground (arith, get-by_hash h cs d)

  followed :
      (doc_id : String) (cs : List (Chunk P)) (now : ℕ) (l : LiveVectorLake P)
      → (str_eq (get_last_hash doc_id l.version_store) "" ≡ true
          → load_hot_chunks doc_id l.version_store ≡ [])
      → HavePoints cs
      → Indexed doc_id l
      → let (added, removed) = (update_document_chunks doc_id cs false now l.version_store).0 in
        HavePoints added
        × ((h : String)
            → text_of (Dict.get h (delete_all removed (by_hash added l.points)))
              ≡ text_after h (load_hot_chunks doc_id l.version_store) cs l.points)
  unfolding update_document_chunks Pointed
  followed doc_id cs now l fresh points indexed =
      let old = load_hot_chunks doc_id l.version_store in
      elim (Bool-cases (str_eq (get_last_hash doc_id l.version_store) "")) [
        | inl first ↦ rw first (points, λ h. rw (fresh first) (first_time h cs l.points))
        | inr later ↦ rw later (
          added_of-HavePoints (by_hash old []) (by_hash cs []) (by_hash-Pointed cs [] points tt),
          λ h. compared h old cs l.points (indexed h),
        )
      ]

  hot_texts :
      (doc_id : String) (cs : List (Chunk P)) (now : ℕ) (s : ChunkVersionStore P)
      → (str_eq (get_last_hash doc_id s) "" ≡ true → load_hot_chunks doc_id s ≡ [])
      → (h : String)
      → let s' = (update_document_chunks doc_id cs false now s).1 in
        text_of (Dict.get h (by_hash cs []))
        ≡ text_of (Dict.get h (by_hash (load_hot_chunks doc_id s') []))
  hot_texts doc_id cs now s fresh h =
      let index = by_hash (load_hot_chunks doc_id s) [] in
      let (new, hot) = update_document_chunks-Synced doc_id cs now s index fresh (λ h. refl) in
      sym (new h) ∙ hot h

  still :
      (h : String) (o : Chunk P) (hot cs old : List (Chunk P)) (d : Dict (Chunk P))
      (found : Option (Chunk P))
      → text_of (Dict.get h (by_hash cs [])) ≡ text_of (Dict.get h (by_hash hot []))
      → text_of found ≡ text_after h old cs d
      → Dict.get h (by_hash hot []) ≡ some o
      → text_of found ≡ some o.text
  still h o hot cs old d found same right p = elim (Option-cases (Dict.get h (by_hash cs []))) [
    | inl q ↦ ground (arith, same, p, q)
    | inr (c, q) ↦ ground (arith, same, right, p, q)
  ]

  -- Where no call of Qdrant raises, a batch has at least one chunk, each new chunk has a hash and a
  -- text, the index has the text of the document's hot chunks, and a document without a last hash
  -- has no hot chunks: after `sync_document` without `force` the index has, under each hash, the
  -- text of the new chunk that has it, nothing where only an old chunk of the document had it, and
  -- what it had where neither did; and it has the text of the document's hot chunks again.
  pub sync_document_lem :
      (doc_id : String) (cs : List (Chunk P)) (now : ℕ) (l : LiveVectorLake P)
      → (str_eq (get_last_hash doc_id l.version_store) "" ≡ true
          → load_hot_chunks doc_id l.version_store ≡ [])
      → 1 ≤ l.batch_size
      → HavePoints cs
      → Indexed doc_id l
      → let l' = (sync_document running doc_id cs false now l).1 in
        ((h : String)
          → text_of (Dict.get h l'.points)
            ≡ text_after h (load_hot_chunks doc_id l.version_store) cs l.points)
        × Indexed doc_id l'
  sync_document_lem doc_id cs now l fresh some_size points indexed =
      let s = l.version_store in
      let old = load_hot_chunks doc_id s in
      let l' = (sync_document running doc_id cs false now l).1 in
      let (changes, s') = update_document_chunks doc_id cs false now s in
      let (added_points, texts) = followed doc_id cs now l fresh points indexed in
      let (_, kept, store) = points-sync_document running doc_id cs false now l in
      let indexed_all : index_chunks running l.batch_size changes.0 l.points
          ≡ (length changes.0, by_hash changes.0 l.points) =
        index_chunks_all l.batch_size changes.0 l.points added_points in
      let after : l'.points ≡ delete_all changes.1 (by_hash changes.0 l.points) =
        kept
        ∙ ap (λ r. (delete_chunks running changes.1 r.1).1) indexed_all
        ∙ ap (λ r. r.1) (delete_chunks-running changes.1 (by_hash changes.0 l.points)) in
      let right : (h : String) → text_of (Dict.get h l'.points) ≡ text_after h old cs l.points =
        λ h. ap (λ d. text_of (Dict.get h d)) after ∙ texts h in
      (
        right,
        λ h o p.
            still h o (load_hot_chunks doc_id s') cs old l.points (Dict.get h l'.points)
              (hot_texts doc_id cs now s fresh h) (right h)
              (ap (λ t. Dict.get h (by_hash (load_hot_chunks doc_id t) [])) (sym store) ∙ p),
      )
