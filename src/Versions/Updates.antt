-- ===== src/Versions/Updates.antt =====
-- etl/chunker/hash_versioning.py: an index that follows the reports of `update_document_chunks`.
use rag_system.Base.{
  ℕ, true, false, String, Option, some, none, List, [], ◌∷◌, ◌++◌, ◌≡◌, refl, map, ◌||◌, str_eq,
  eq_iff, arith, Option-cases, Bool-cases, inl, inr, ap, sym, ◌∙◌,
}
use mathlib.Core.Path.{subst}
use rag_system.Base.Dict
use rag_system.Base.Dict.{Dict, get-put}
use rag_system.Versions.{
  Chunk, HistoryRecord, ChunkVersionStore, by_hash, is_changed, added_of, deleted_of, rewritten_of,
  has_some, get_last_hash, load_hot_chunks, save_chunks_to_hot, append_to_cold_storage, update_wal,
  update_document_chunks, stored, deleted,
}
use rag_system.Versions.Changes.{
  text_of, delete_all, get-delete_all, mem-deleted_of, get-added_of, by_hash-Keyed,
  by_hash-Distinct,
}

pub nothing {ℓ} : {A : Type ℓ} (xs : List A) → has_some xs ≡ false → xs ≡ []
nothing [] h = refl
nothing (x ∷ xs) h = ground (arith, h)

module _ {P : Type 0} where
  -- The index has, under each hash, the text that the chunks have.
  abbrev pub Synced : Dict (Chunk P) → List (Chunk P) → Type 0
  Synced index chunks =
      (h : String) → text_of (Dict.get h index) ≡ text_of (Dict.get h (by_hash chunks []))

  -- The reported changes, carried out in an index by hash: deletions, then additions.
  abbrev pub follow : List (Chunk P) × List String → Dict (Chunk P) → Dict (Chunk P)
  follow (added, removed) index = by_hash added (delete_all removed index)

  pub get-by_hash :
      (h : String) (cs : List (Chunk P)) (d : Dict (Chunk P))
      → Dict.get h (by_hash cs d)
        ≡ (elim (Dict.get h (by_hash cs [])) [ some c ↦ some c | none ↦ Dict.get h d ])
  unfolding by_hash Dict.get
  get-by_hash h [] d = refl
  get-by_hash h (c ∷ cs) d = ground (
    arith,
    get-by_hash h cs (Dict.put c.hash c d),
    get-by_hash h cs (Dict.put c.hash c []),
    get-put c.hash h c d,
    get-put c.hash h c [],
  )

  pub unchanged :
      (o : Option (Chunk P)) (c : Chunk P) → is_changed o c ≡ false → text_of o ≡ some c.text
  unfolding is_changed
  unchanged none c h = ground (arith, h)
  unchanged (some o) c h = ground (arith, h, eq_iff o.text c.text)

  changes-Synced :
      (old cs : List (Chunk P)) (index : Dict (Chunk P))
      → Synced index old
      → let old_map = by_hash old [] in
        let new_map = by_hash cs [] in
        Synced (follow (added_of old_map new_map, deleted_of new_map old_map) index) cs
  unfolding is_changed Dict.contains
  changes-Synced old cs index synced h =
      let old_map = by_hash old [] in
      let new_map = by_hash cs [] in
      let gone = deleted_of new_map old_map in
      let put_back =
        get-added_of h old_map new_map (delete_all gone index) (by_hash-Distinct cs [] tt)
          (by_hash-Keyed cs [] tt) in
      let left = get-delete_all h gone index in
      let named = mem-deleted_of h new_map old_map in
      elim (Option-cases (Dict.get h new_map)) [
        | inl p ↦ ground (arith, p, synced h, put_back, left, named)
        | inr (c, p) ↦
            ground (arith, p, synced h, put_back, left, named, unchanged (Dict.get h old_map) c)
      ]

  first-Synced :
      (cs : List (Chunk P)) (index : Dict (Chunk P))
      → Synced index []
      → Synced (by_hash cs index) cs
  unfolding by_hash Dict.get
  first-Synced cs index synced h = ground (arith, synced h, get-by_hash h cs index)

  pub load-save_chunks_to_hot :
      (doc_id : String) (cs : List (Chunk P)) (now : ℕ) (s : ChunkVersionStore P)
      → load_hot_chunks doc_id (update_wal doc_id cs now (save_chunks_to_hot doc_id cs s)) ≡ cs
  unfolding load_hot_chunks update_wal save_chunks_to_hot
  load-save_chunks_to_hot doc_id cs now s = ground (arith, Dict.get-put_self doc_id cs s.hot)

  pub load-append_to_cold_storage :
      (doc_id : String) (cs : List (Chunk P)) (now : ℕ) (rs : List (HistoryRecord P))
      (s : ChunkVersionStore P)
      → (load_hot_chunks doc_id (
            update_wal doc_id cs now
              (append_to_cold_storage doc_id rs (save_chunks_to_hot doc_id cs s)))
          ≡ cs)
        × (load_hot_chunks doc_id (update_wal doc_id cs now (append_to_cold_storage doc_id rs s))
            ≡ load_hot_chunks doc_id s)
  unfolding load_hot_chunks update_wal save_chunks_to_hot append_to_cold_storage
  load-append_to_cold_storage doc_id cs now rs s =
      (ground (arith, Dict.get-put_self doc_id cs s.hot), refl)

  follow-nothing :
      (added : List (Chunk P)) (removed : List String) (index : Dict (Chunk P))
      → added ≡ []
      → removed ≡ []
      → follow (added, removed) index ≡ index
  unfolding by_hash
  follow-nothing added removed index a r =
      ap (λ xs. by_hash xs (delete_all removed index)) a ∙ ap (λ hs. delete_all hs index) r

  -- The update behind its comparison, with the state that has the records of rewritten chunks.
  compared-Synced :
      (doc_id : String) (cs : List (Chunk P)) (now : ℕ) (s : ChunkVersionStore P)
      (index : Dict (Chunk P))
      → Synced index (load_hot_chunks doc_id s)
      → str_eq (get_last_hash doc_id s) "" ≡ false
      → let (changes, s') = update_document_chunks doc_id cs false now s in
        Synced (follow changes index) cs × Synced (follow changes index) (load_hot_chunks doc_id s')
  unfolding update_document_chunks
  compared-Synced doc_id cs now s index synced later =
      let old_map = by_hash (load_hot_chunks doc_id s) [] in
      let new_map = by_hash cs [] in
      let added = added_of old_map new_map in
      let removed = deleted_of new_map old_map in
      let whole = changes-Synced (load_hot_chunks doc_id s) cs index synced in
      let records = rewritten_of now old_map new_map in
      let s₁ = append_to_cold_storage doc_id records s in
      elim (Bool-cases (has_some added || has_some removed)) [
        | inl some_changed ↦
            let log = map (stored now none) added ++ map (deleted now) removed in
            let hot = (load-append_to_cold_storage doc_id cs now log s₁).0 in
            rw later rw some_changed
              (whole, subst (Synced (follow (added, removed) index)) (sym hot) whole)
        | inr same ↦
            let hot = (load-append_to_cold_storage doc_id cs now records s).1 in
            let none_added = nothing added (ground (arith, same)) in
            let none_removed = nothing removed (ground (arith, same)) in
            let idle : follow (added, removed) index ≡ index =
              follow-nothing added removed index none_added none_removed in
            let still : Synced index (load_hot_chunks doc_id (update_wal doc_id cs now s₁)) =
              subst (Synced index) (sym hot) synced in
            rw later rw same (whole, λ h. ap (λ d. text_of (Dict.get h d)) idle ∙ still h)
      ]

  -- An index that holds the chunks of a document and follows the changes that an update without
  -- `force` reports then holds the new chunks, and agrees with the hot chunks, where a document
  -- without a last hash has no hot chunks.
  pub update_document_chunks-Synced :
      (doc_id : String) (cs : List (Chunk P)) (now : ℕ) (s : ChunkVersionStore P)
      (index : Dict (Chunk P))
      → (str_eq (get_last_hash doc_id s) "" ≡ true → load_hot_chunks doc_id s ≡ [])
      → Synced index (load_hot_chunks doc_id s)
      → let (changes, s') = update_document_chunks doc_id cs false now s in
        Synced (follow changes index) cs × Synced (follow changes index) (load_hot_chunks doc_id s')
  unfolding update_document_chunks
  update_document_chunks-Synced doc_id cs now s index fresh synced =
      let old = load_hot_chunks doc_id s in
      elim (Bool-cases (str_eq (get_last_hash doc_id s) "")) [
        | inl first ↦
            let empty = fresh first in
            let whole = first-Synced cs index (subst (Synced index) empty synced) in
            rw first (
              whole,
              subst (Synced (by_hash cs index)) (sym (load-save_chunks_to_hot doc_id cs now s))
                  whole,
            )
        | inr later ↦ compared-Synced doc_id cs now s index synced later
      ]

  -- With `force` no deletion is reported: an index that follows the report keeps every chunk whose
  -- hash is not among the new ones, also the old chunks of the document, which the hot chunks drop.
  pub forced_keeps_stale :
      (doc_id : String) (cs : List (Chunk P)) (now : ℕ) (s : ChunkVersionStore P)
      (index : Dict (Chunk P)) (h : String)
      → Dict.get h (by_hash cs []) ≡ none
      → let (changes, s') = update_document_chunks doc_id cs true now s in
        (Dict.get h (follow changes index) ≡ Dict.get h index) × (load_hot_chunks doc_id s' ≡ cs)
  unfolding update_document_chunks
  forced_keeps_stale doc_id cs now s index h gone =
      (ground (arith, gone, get-by_hash h cs index), load-save_chunks_to_hot doc_id cs now s)
