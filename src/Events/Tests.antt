-- ===== src/Events/Tests.antt =====
-- Runs of the event processor, and its theorems at concrete inputs.
use rag_system.Base.{◌+◌, true, false, String, some, none, List, [], ◌∷◌, ◌≡◌, refl, str_eq}
use rag_system.Base.Dict
use rag_system.Versions.{Chunk, by_hash}
use rag_system.Lake.{has_point}
use rag_system.Lake.Index.{running}
use rag_system.Events.Documents.{
  Strings, Payload, Event, event_to_document, gitlab_document, push_document, commit_parts,
  diff_parts, confluence_document, is_skipped,
}
use rag_system.Events.Processor.{Source, Calls, EventProcessor, ensure_components, process_event}
use rag_system.Events.Deletion.{gitlab_documents_stay}
use rag_system.Events.Updates.{indexed, document_event_lem}

-- Texts have no blanks around them here.
abbrev strings : Strings
strings = record {
  is_blank = λ s. str_eq s "";
  first = λ n s. s;
  join_lines = λ ls. elim ls [ [] ↦ "" | l ∷ rest ↦ l ];
}

abbrev payload : Payload
payload = record {
  title = "Page";
  body_storage = "<p>Text</p>";
  body_view = "";
  body_storage_raw = "";
  version = "2";
  project_name = none;
  commits = record { message = "Fix"; diffs = [] } ∷ [];
  description = "";
  content = "";
}

abbrev event : String → String → String → Event
event source event_type doc_id = record {
  source = source;
  event_type = event_type;
  doc_id = doc_id;
  payload = some payload;
}

abbrev chunk : String → String → Chunk Source
chunk h id = record { hash = h; text = "Text"; metadata = record { source_id = id } }

abbrev calls : Calls
calls = record {
  makes_chunker = true;
  makes_indexer = true;
  process_document = λ d. some (chunk "bbb" d.id ∷ []);
  outages = running;
  search_fails = false;
  reset_fails = false;
}

abbrev processor : EventProcessor
processor = record {
  has_chunker = false;
  has_indexer = false;
  points = ("aaa", chunk "aaa" "confluence_7") ∷ ("ccc", chunk "ccc" "gitlab_push_7") ∷ [];
  version_store = record { hot = []; wal = []; cold = [] };
  stats = record { processed = 0; skipped = 0; failed = 0; chunks_indexed = 0 };
}

abbrev events : List (Calls × Event)
events =
    (calls, event "confluence" "page_updated" "7")
    ∷ (calls, event "" "page_updated" "7")
    ∷ (calls, event "gitlab" "pipeline" "7")
    ∷ []

gitlab_documents_stay_example :
    let (acked, s') =
      process_event strings 100 calls (event "gitlab" "page_deleted" "7") processor in
    (acked ≡ true) × (Dict.get "ccc" s'.points ≡ some (chunk "ccc" "gitlab_push_7"))
unfolding ensure_components Dict.get gitlab_document push_document commit_parts diff_parts
gitlab_documents_stay_example =
    gitlab_documents_stay strings 100 calls (event "gitlab" "page_deleted" "7") payload processor
      "push" payload
      (record {
        id = "gitlab_push_7";
        source_type = "gitlab_commit";
        title = "Push to 7";
        content = "Fix";
        content_type = "markdown";
        version = "latest";
      })
      "ccc" (chunk "ccc" "gitlab_push_7") refl refl refl refl refl refl refl refl (refl, (refl, tt))

document_event_lem_example :
    let (acked, s') =
      process_event strings 100 calls (event "confluence" "page_updated" "7") processor in
    (acked ≡ true)
    × (indexed s' ≡ indexed processor + 1)
    × ((h : String)
        → Dict.get h s'.points ≡ (elim (Dict.get h (by_hash (chunk "bbb" "confluence_7" ∷ []) [])) [
          | some c ↦ some c
          | none ↦ Dict.get h processor.points
        ]))
unfolding ensure_components event_to_document confluence_document is_skipped has_point
document_event_lem_example =
    document_event_lem strings 100 calls (event "confluence" "page_updated" "7") payload
      (record {
        id = "confluence_7";
        source_type = "confluence";
        title = "Page";
        content = "<p>Text</p>";
        content_type = "html";
        version = "2";
      })
      (chunk "bbb" "confluence_7" ∷ []) processor refl refl refl refl refl refl refl (refl, tt) refl
