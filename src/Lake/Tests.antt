-- ===== src/Lake/Tests.antt =====
-- Runs of the lake, and its theorems at concrete inputs.
use rag_system.Base.{ℕ, false, String, List, [], ◌∷◌, ◌≡◌, refl, arith}
use rag_system.Base.Dict
use rag_system.Versions.{Chunk, get_last_hash, load_hot_chunks, by_hash, last_hash_of}
use rag_system.Versions.Changes.{text_of}
use rag_system.Lake.{LiveVectorLake, Metadata, Row, upsert, delete, has_point, sync_document}
use rag_system.Lake.Index.{running, down}
use rag_system.Lake.Sync.{Indexed, text_after, sync_document_lem}
use rag_system.Lake.Faults.{lost_sync}

abbrev chunk : String → String → Chunk (Metadata ℕ)
chunk h t = record {
  hash = h;
  text = t;
  metadata = record {
    columns = 0;
    access_level = "confidential";
    allowed_groups = "hr" ∷ [];
    allowed_users = [];
  };
}

abbrev first_version : List (Chunk (Metadata ℕ))
first_version = chunk "aaa" "Version 1 content" ∷ chunk "bbb" "Another chunk" ∷ []

abbrev second_version : List (Chunk (Metadata ℕ))
second_version = chunk "ccc" "Version 2 content" ∷ chunk "bbb" "Another chunk" ∷ []

abbrev lake : LiveVectorLake (Metadata ℕ)
lake = record {
  version_store = record { hot = []; wal = []; cold = [] };
  points = ("zzz", chunk "zzz" "Another document") ∷ [];
  cold = [];
  batch_size = 100;
}

-- The document was written, then its first chunk was deleted.
abbrev rows : List (Row (Metadata ℕ))
rows =
    upsert 1 (chunk "aaa" "Version 1 content")
    ∷ upsert 1 (chunk "bbb" "Another chunk")
    ∷ delete 5 "aaa"
    ∷ []

abbrev written : LiveVectorLake (Metadata ℕ)
written = record lake { cold = ("doc", rows) ∷ [] }

sync_document_lem_example :
    let l' = (sync_document running "doc" first_version false 7 lake).1 in
    ((h : String)
      → text_of (Dict.get h l'.points)
        ≡ text_after h (load_hot_chunks "doc" lake.version_store) first_version lake.points)
    × Indexed "doc" l'
unfolding load_hot_chunks Dict.get get_last_hash has_point by_hash
sync_document_lem_example =
    sync_document_lem "doc" first_version 7 lake (λ p. refl) (omega arith) (refl, (refl, tt))
      (λ h o p. ground (arith, p))

lost_sync_example :
    let l' = (sync_document down "doc" first_version false 7 lake).1 in
    let (counts, l'') = sync_document running "doc" first_version false 8 l' in
    (counts ≡ (0, 0)) × (l''.points ≡ lake.points)
unfolding last_hash_of
lost_sync_example = lost_sync "doc" first_version 7 8 running lake refl

abbrev revived : Chunk (Metadata ℕ)
revived = record {
  hash = "aaa";
  text = "Version 1 content";
  metadata = record {
    columns = 0;
    access_level = "public";
    allowed_groups = [];
    allowed_users = [];
  };
}
