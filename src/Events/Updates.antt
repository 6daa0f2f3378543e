-- ===== src/Events/Updates.antt =====
-- etl/scheduler/event_processor.py: what an event with a document does to the index.
use rag_system.Base.{
  ℕ, ◌==◌, ◌+◌, true, false, String, some, none, List, [], ◌∷◌, ◌≡◌, ap, ◌∙◌, length, arith, str_eq,
}
use rag_system.Base.Dict
use rag_system.Versions.{Chunk, has_some, by_hash}
use rag_system.Versions.Updates.{get-by_hash}
use rag_system.Lake.{index_chunks}
use rag_system.Lake.Index.{running, HavePoints, index_chunks_all}
use rag_system.Events.Documents.{Strings, Event, Payload, Document, event_to_document}
use rag_system.Events.Processor.{
  Calls, EventProcessor, Source, ensure_components, index_document, document_event, process_event,
  is_deletion,
}

abbrev pub indexed : EventProcessor → ℕ
indexed s = s.stats.chunks_indexed

length_positive : {A : Type 0} (xs : List A) → has_some xs ≡ true → (length xs == 0) ≡ false
length_positive [] h = ground (arith, h)
length_positive (x ∷ xs) h = ground arith

index_document-running :
    (calls : Calls) (batch_size : ℕ) (document : Document) (cs : List (Chunk Source))
    (s : EventProcessor)
    → calls.process_document document ≡ some cs
    → calls.outages ≡ running
    → has_some cs ≡ true
    → HavePoints cs
    → let (acked, s') = index_document calls batch_size document s in
      (acked ≡ true) × (s'.points ≡ by_hash cs s.points) × (indexed s' ≡ indexed s + length cs)
unfolding index_document
index_document-running calls batch_size document cs s chunked up more points =
    let whole : index_chunks calls.outages batch_size cs s.points
        ≡ (length cs, by_hash cs s.points) =
      ap (λ o. index_chunks o batch_size cs s.points) up
      ∙ index_chunks_all batch_size cs s.points points in
    ground (arith, chunked, more, whole, length_positive cs more)

-- An event that is mapped to a document, with the components there, no call of Qdrant that raises,
-- and chunks that are some and have each a hash and a text, is acknowledged and its chunks are
-- counted. Under each hash of a new chunk there is the new chunk; under every other hash there is what
-- was there, also where an earlier event of the same document put it.
pub document_event_lem :
    (strings : Strings) (batch_size : ℕ) (calls : Calls) (e : Event) (p : Payload)
    (document : Document) (cs : List (Chunk Source)) (s : EventProcessor)
    → str_eq e.source "" ≡ false
    → e.payload ≡ some p
    → is_deletion e ≡ false
    → event_to_document strings e p ≡ some document
    → calls.process_document document ≡ some cs
    → calls.outages ≡ running
    → has_some cs ≡ true
    → HavePoints cs
    → (ensure_components calls s).0 ≡ true
    → let (acked, s') = process_event strings batch_size calls e s in
      (acked ≡ true)
      × (indexed s' ≡ indexed s + length cs)
      × ((h : String)
          → Dict.get h s'.points
            ≡ (elim (Dict.get h (by_hash cs [])) [ some c ↦ some c | none ↦ Dict.get h s.points ]))
unfolding process_event document_event ensure_components
document_event_lem strings batch_size calls e p document cs s named json kept mapped chunked up more
      points ready =
    let s₁ = (ensure_components calls s).1 in
    let (acked, put, total) =
      index_document-running calls batch_size document cs s₁ chunked up more points in
    (
      ground (arith, named, json, kept, mapped, ready, acked),
      ground (arith, named, json, kept, mapped, ready, total),
      λ h.
          ground (
            arith,
            named,
            json,
            kept,
            mapped,
            ready,
            ap (Dict.get h) put,
            get-by_hash h cs s.points,
          ),
    )
