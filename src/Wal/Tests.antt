-- ===== src/Wal/Tests.antt =====
-- Runs of the write-ahead log, and its theorems at concrete inputs.
use rag_system.Base.{ℕ, true, not, some, none, [], ◌∷◌, ◌≡◌, refl, str_eq, if◌then◌else◌, ◌&&◌}
use rag_system.Base.Dict
use rag_system.Base.Dict.{Dict}
use rag_system.Wal.{
  text, number, hashes, Wal, file, Formats, get_checkpoint, read, get_offset, update_hash_state,
  get_hash_state,
}
use rag_system.Wal.Hashes.{get-update_hash_state}

-- Times are read as they are written at one time only.
abbrev formats : Formats ℕ
formats = record {
  isoformat = λ n. "2025-06-01T00:00:00+00:00";
  fromisoformat = λ t. if str_eq t "2025-06-01T00:00:00+00:00" then some 1748736000 else none;
  str = λ v. "?";
  int = λ v. none;
}

abbrev wal : Wal ℕ
wal =
    ("confluence_extractor", ("last_run", text "2025-05-01T00:00:00") ∷ ("offset", number 150) ∷ [])
    ∷ ("indexing", ("hash_map", hashes (("confluence_123", "abc") ∷ [])) ∷ [])
    ∷ []

offset_is_read : get_offset formats true "confluence_extractor" wal ≡ some 150
unfolding get_offset get_checkpoint Dict.get read
offset_is_read = refl

get-update_hash_state_example :
    (elim (update_hash_state formats file true true "indexing" "jira_7" "def" 5 wal) [
      | none ↦ none
      | some w' ↦ get_hash_state true "indexing" "confluence_123" w'
    ])
    ≡ (elim (get_hash_state true "indexing" "jira_7" wal) [
      | none ↦ none
      | some before ↦
          if not true
          then none
          else if str_eq "indexing" "indexing" && str_eq "jira_7" "confluence_123"
          then some (some "def")
          else get_hash_state true "indexing" "confluence_123" wal
    ])
unfolding Dict.get
get-update_hash_state_example =
    get-update_hash_state formats file true "indexing" "indexing" "jira_7" "confluence_123" "def" 5
      wal (refl, (refl, tt))
