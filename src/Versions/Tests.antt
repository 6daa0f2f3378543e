-- ===== src/Versions/Tests.antt =====
-- Runs of the version store, and its theorem at a concrete input.
use rag_system.Base.{ℕ, false, String, List, [], ◌∷◌, ◌≡◌, refl, arith}
use rag_system.Base.Dict
use rag_system.Versions.{
  Chunk, ChunkVersionStore, get_last_hash, load_hot_chunks, by_hash, update_document_chunks,
  added_of, deleted_of,
}
use rag_system.Versions.Updates.{Synced, follow, update_document_chunks-Synced}

abbrev chunk : String → String → Chunk ℕ
chunk h t = record { hash = h; text = t; metadata = 0 }

abbrev first_version : List (Chunk ℕ)
first_version = chunk "aaa" "Version 1 content" ∷ chunk "bbb" "Another chunk" ∷ []

abbrev second_version : List (Chunk ℕ)
second_version = chunk "ccc" "Version 2 content" ∷ chunk "bbb" "Another chunk" ∷ []

abbrev store : ChunkVersionStore ℕ
store = record {
  hot = ("doc", first_version) ∷ [];
  wal = ("doc", record { last_hash = "bbb"; last_modified = 1; num_chunks = 2 }) ∷ [];
  cold = [];
}

changes :
    (update_document_chunks "doc" second_version false 7 store).0
    ≡ (chunk "ccc" "Version 2 content" ∷ [], "aaa" ∷ [])
unfolding update_document_chunks Dict.get added_of deleted_of by_hash Dict.put Dict.contains
changes = refl

update_document_chunks-Synced_example :
    let (changed, s') = update_document_chunks "doc" second_version false 7 store in
    Synced (follow changed (by_hash first_version [])) second_version
    × Synced (follow changed (by_hash first_version [])) (load_hot_chunks "doc" s')
unfolding load_hot_chunks get_last_hash Dict.get
update_document_chunks-Synced_example =
    update_document_chunks-Synced "doc" second_version 7 store (by_hash first_version [])
      (λ h. ground (arith, h)) (λ h. refl)
