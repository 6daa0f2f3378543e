-- ===== src/Events/Processor.antt =====
-- etl/scheduler/event_processor.py: `process_event` and `_delete_document`.
use rag_system.Base.{
  ℕ, ◌+◌, ◌==◌, suc, Bool, true, false, not, ◌&&◌, ◌||◌, String, Option, some, none, List, [], ◌∷◌,
  str_eq, if◌then◌else◌,
}
use Prim.Native.String.{◌++◌ as str_append}
use text.Mathlib.Text.{starts_with}
use rag_system.Base.Dict.{Dict}
use rag_system.Versions.{Chunk, ChunkVersionStore, has_some, reset_document}
use rag_system.Lake.{Outages, index_chunks}
use rag_system.Events.Documents.{Strings, Event, Document, event_to_document}

pub record Source : Type 0 where
  pub source_id : String

pub record Stats : Type 0 where
  pub processed : ℕ
  pub skipped : ℕ
  pub failed : ℕ
  pub chunks_indexed : ℕ

pub record EventProcessor : Type 0 where
  pub has_chunker : Bool
  pub has_indexer : Bool
  pub points : Dict (Chunk Source)
  pub version_store : ChunkVersionStore Source
  pub stats : Stats

-- What the calls of one event do: whether the components can be made, the chunks of a document
-- (`none` where the chunker raises), which calls of Qdrant raise, whether the first search for the
-- points of a source does, and whether the reset of the version store does.
pub record Calls : Type 0 where
  pub makes_chunker : Bool
  pub makes_indexer : Bool
  pub process_document : Document → Option (List (Chunk Source))
  pub outages : Outages Source
  pub search_fails : Bool
  pub reset_fails : Bool

unfoldable pub normalize_document_id : String → String → String
normalize_document_id source doc_id =
    let prefix = str_append source "_" in
    if starts_with doc_id prefix then doc_id else str_append prefix doc_id

-- `delete_by_source_id`, where either no call of Qdrant raises or the first search does
unfoldable pub with_source : String → Dict (Chunk Source) → ℕ
with_source id [] = 0
with_source id ((h, c) ∷ d) =
    let rest = with_source id d in if str_eq c.metadata.source_id id then suc rest else rest

unfoldable pub without_source : String → Dict (Chunk Source) → Dict (Chunk Source)
without_source id [] = []
without_source id ((h, c) ∷ d) =
    let rest = without_source id d in if str_eq c.metadata.source_id id then rest else (h, c) ∷ rest

unfoldable pub delete_by_source_id : Bool → String → Dict (Chunk Source) → ℕ × Dict (Chunk Source)
unfolding with_source without_source
delete_by_source_id fails id d =
    if str_eq id "" || fails then (0, d) else (with_source id d, without_source id d)

-- A chunker or an indexer that was made once is kept.
unfoldable pub ensure_components : Calls → EventProcessor → Bool × EventProcessor
ensure_components calls s =
    let chunker = s.has_chunker || calls.makes_chunker in
    let indexer = s.has_indexer || (chunker && calls.makes_indexer) in
    (chunker && indexer, record s { has_chunker = chunker; has_indexer = indexer })

unfoldable pub delete_document : Calls → String → String → EventProcessor → Bool × EventProcessor
unfolding normalize_document_id delete_by_source_id ensure_components
delete_document calls source doc_id s =
    let document_id = normalize_document_id source doc_id in
    let (ready, s') = ensure_components calls s in
    if not ready then (false, s') else (
      true,
      record s' {
        points = (delete_by_source_id calls.search_fails document_id s'.points).1;
        version_store =
            if calls.reset_fails
            then s'.version_store
            else reset_document document_id s'.version_store;
      },
    )

abbrev pub count_processed : ℕ → EventProcessor → EventProcessor
count_processed n s = record s {
  stats = record s.stats {
    processed = s.stats.processed + 1;
    chunks_indexed = s.stats.chunks_indexed + n;
  };
}

abbrev pub count_skipped : EventProcessor → EventProcessor
count_skipped s = record s { stats = record s.stats { skipped = s.stats.skipped + 1 } }

abbrev pub count_failed : EventProcessor → EventProcessor
count_failed s = record s { stats = record s.stats { failed = s.stats.failed + 1 } }

abbrev pub is_deletion : Event → Bool
is_deletion e =
    (str_eq e.event_type "page_removed" || str_eq e.event_type "page_deleted")
    && (str_eq e.source "confluence" || str_eq e.source "gitlab")

-- The result tells whether the event is acknowledged.
unfoldable pub index_document : Calls → ℕ → Document → EventProcessor → Bool × EventProcessor
index_document calls batch_size document s = elim (calls.process_document document) [
  | none ↦ (false, count_failed s)
  | some chunks ↦
      if not (has_some chunks)
      then (true, count_skipped s)
      else let (indexed, d) = index_chunks calls.outages batch_size chunks s.points in
        let s' = record s { points = d } in
        if indexed == 0 then (false, count_failed s') else (true, count_processed indexed s')
]

unfoldable pub deletion_event : Calls → Event → EventProcessor → Bool × EventProcessor
unfolding delete_document
deletion_event calls e s =
    let (deleted, s') = delete_document calls e.source e.doc_id s in
    (deleted, if deleted then count_processed 0 s' else count_failed s')

unfoldable pub document_event : ℕ → Calls → Option Document → EventProcessor → Bool × EventProcessor
unfolding index_document ensure_components
document_event batch_size calls none s = (true, count_skipped s)
document_event batch_size calls (some document) s =
    let (ready, s') = ensure_components calls s in
    if ready then index_document calls batch_size document s' else (false, count_failed s')

unfoldable pub process_event : Strings → ℕ → Calls → Event → EventProcessor → Bool × EventProcessor
unfolding deletion_event document_event event_to_document
process_event strings batch_size calls e s =
    if str_eq e.source "" then (false, s) else elim e.payload [
      | none ↦ (false, s)
      | some p ↦
          if is_deletion e
          then deletion_event calls e s
          else document_event batch_size calls (event_to_document strings e p) s
    ]

-- A run over events, each with its calls: the number of those that are acknowledged
unfoldable pub process_events :
    Strings → ℕ → List (Calls × Event) → EventProcessor → ℕ × EventProcessor
unfolding process_event
process_events strings batch_size [] s = (0, s)
process_events strings batch_size ((calls, e) ∷ es) s =
    let (acked, s') = process_event strings batch_size calls e s in
    let (n, s'') = process_events strings batch_size es s' in (if acked then suc n else n, s'')
