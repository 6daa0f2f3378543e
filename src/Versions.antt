-- ===== src/Versions.antt =====
-- etl/chunker/hash_versioning.py: the store of chunk versions. The hot directory and the WAL are
-- dictionaries by document, and the cold storage is a list of records for each document.
-- A chunk keeps what the store looks at; its hash was computed before, and the other metadata are
-- of any type `P`. Files are read back as they were written.
use rag_system.Base.{
  ℕ, Bool, true, false, String, Option, some, none, List, [], ◌∷◌, ◌++◌, length, map, not, ◌||◌,
  str_eq, if◌then◌else◌,
}
use rag_system.Base.Dict
use rag_system.Base.Dict.{Dict}
pub mod Changes
pub mod Updates
mod Tests

pub record Chunk (P : Type 0) : Type 0 where
  pub hash : String
  pub text : String
  pub metadata : P

-- An entry of the WAL
pub record Entry : Type 0 where
  pub last_hash : String
  pub last_modified : ℕ
  pub num_chunks : ℕ

pub data HistoryRecord (P : Type 0) : Type 0 where
  stored : ℕ → Option String → Chunk P → HistoryRecord P
  deleted : ℕ → String → HistoryRecord P

pub record ChunkVersionStore (P : Type 0) : Type 0 where
  pub hot : Dict (List (Chunk P))
  pub wal : Dict Entry
  pub cold : Dict (List (HistoryRecord P))

abbrev pub or_empty {ℓ} : {A : Type ℓ} → Option (List A) → List A
or_empty none = []
or_empty (some xs) = xs

abbrev pub has_some {ℓ} : {A : Type ℓ} → List A → Bool
has_some [] = false
has_some (x ∷ xs) = true

module _ {P : Type 0} where
  -- No entry gives the empty text, which is false as `None` is.
  unfoldable pub get_last_hash : String → ChunkVersionStore P → String
  get_last_hash doc_id s = elim (Dict.get doc_id s.wal) [ none ↦ "" | some e ↦ e.last_hash ]

  unfoldable pub append_to_cold_storage :
      String → List (HistoryRecord P) → ChunkVersionStore P → ChunkVersionStore P
  append_to_cold_storage doc_id records s = record s {
    cold = Dict.put doc_id (or_empty (Dict.get doc_id s.cold) ++ records) s.cold;
  }

  unfoldable pub save_chunks_to_hot :
      String → List (Chunk P) → ChunkVersionStore P → ChunkVersionStore P
  save_chunks_to_hot doc_id chunks s = record s { hot = Dict.put doc_id chunks s.hot }

  unfoldable pub load_hot_chunks : String → ChunkVersionStore P → List (Chunk P)
  load_hot_chunks doc_id s = or_empty (Dict.get doc_id s.hot)

  -- `chunks[-1]["hash"] if chunks else ""`
  unfoldable pub last_hash_of : List (Chunk P) → String
  last_hash_of [] = ""
  last_hash_of (c ∷ []) = c.hash
  last_hash_of (c ∷ d ∷ cs) = last_hash_of (d ∷ cs)

  unfoldable pub update_wal :
      String → List (Chunk P) → ℕ → ChunkVersionStore P → ChunkVersionStore P
  unfolding last_hash_of
  update_wal doc_id chunks now s =
      let e : Entry = record {
        last_hash = last_hash_of chunks;
        last_modified = now;
        num_chunks = length chunks;
      } in
      record s { wal = Dict.put doc_id e s.wal }

  -- `{ch["hash"]: ch for ch in chunks}`, behind what is there
  unfoldable pub by_hash : List (Chunk P) → Dict (Chunk P) → Dict (Chunk P)
  by_hash [] d = d
  by_hash (c ∷ cs) d = by_hash cs (Dict.put c.hash c d)

  unfoldable pub is_changed : Option (Chunk P) → Chunk P → Bool
  is_changed none c = true
  is_changed (some o) c = not (str_eq o.text c.text)

  unfoldable pub added_of : Dict (Chunk P) → Dict (Chunk P) → List (Chunk P)
  unfolding is_changed
  added_of old_map [] = []
  added_of old_map ((h, c) ∷ new_map) =
      let rest = added_of old_map new_map in
      if is_changed (Dict.get h old_map) c then c ∷ rest else rest

  -- The records of chunks that keep their hash under another text, written while they are found.
  unfoldable pub rewritten_of : ℕ → Dict (Chunk P) → Dict (Chunk P) → List (HistoryRecord P)
  rewritten_of now old_map [] = []
  rewritten_of now old_map ((h, c) ∷ new_map) =
      let rest = rewritten_of now old_map new_map in
      elim (Dict.get h old_map) [
        | none ↦ rest
        | some o ↦ if str_eq o.text c.text then rest else stored now (some h) c ∷ rest
      ]

  unfoldable pub deleted_of : Dict (Chunk P) → Dict (Chunk P) → List String
  deleted_of new_map [] = []
  deleted_of new_map ((h, c) ∷ old_map) =
      let rest = deleted_of new_map old_map in if Dict.contains h new_map then rest else h ∷ rest

  -- The clock is read once, for all records of one update.
  unfoldable pub update_document_chunks :
      String
      → List (Chunk P)
      → Bool
      → ℕ
      → ChunkVersionStore P
      → (List (Chunk P) × List String) × ChunkVersionStore P
  unfolding get_last_hash load_hot_chunks
  update_document_chunks doc_id new_chunks force now s =
      if force || str_eq (get_last_hash doc_id s) ""
      then (
        (new_chunks, []),
        update_wal doc_id new_chunks now (save_chunks_to_hot doc_id new_chunks s),
      )
      else let old_map = by_hash (load_hot_chunks doc_id s) [] in
        let new_map = by_hash new_chunks [] in
        let added = added_of old_map new_map in
        let removed = deleted_of new_map old_map in
        let s' = append_to_cold_storage doc_id (rewritten_of now old_map new_map) s in
        let s'' =
          if has_some added || has_some removed
          then append_to_cold_storage doc_id
              (map (stored now none) added ++ map (deleted now) removed)
              (save_chunks_to_hot doc_id new_chunks s')
          else s' in
        ((added, removed), update_wal doc_id new_chunks now s'')

  -- `reset(doc_id)`: the history stays.
  unfoldable pub reset_document : String → ChunkVersionStore P → ChunkVersionStore P
  reset_document doc_id s = record s {
    hot = Dict.remove doc_id s.hot;
    wal = Dict.remove doc_id s.wal;
  }

  -- `reset()`
  unfoldable pub reset_all : ChunkVersionStore P → ChunkVersionStore P
  reset_all s = record s { hot = []; wal = [] }
