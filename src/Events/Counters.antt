-- ===== src/Events/Counters.antt =====
-- etl/scheduler/event_processor.py: what the counters of the processor count.
use rag_system.Base.{
  ℕ, ◌+◌, suc, Bool, true, false, not, ◌&&◌, Option, some, none, List, [], ◌∷◌, ◌≡◌, arith, str_eq,
  if◌then◌else◌, Option-cases, inl, inr,
}
use rag_system.Events.Documents.{Strings, Event, Document, event_to_document}
use rag_system.Events.Processor.{
  Calls, EventProcessor, ensure_components, delete_document, index_document, deletion_event,
  document_event, process_event, process_events,
}

-- An event with a source and a payload that is JSON
abbrev pub is_counted : Event → Bool
is_counted e = not (str_eq e.source "") && (elim e.payload [ none ↦ false | some p ↦ true ])

abbrev pub counted : List (Calls × Event) → ℕ
counted [] = 0
counted ((calls, e) ∷ es) = let rest = counted es in if is_counted e then suc rest else rest

abbrev pub settled : EventProcessor → ℕ
settled s = s.stats.processed + s.stats.skipped

abbrev Counts : Bool → Bool → EventProcessor → EventProcessor → Type 0
Counts acked is_one s s' =
    (settled s' ≡ settled s + (if acked then 1 else 0))
    × (settled s' + s'.stats.failed ≡ settled s + s.stats.failed + (if is_one then 1 else 0))

module _ (strings : Strings) (batch_size : ℕ) where
  deletion_event-Counts :
      (calls : Calls) (e : Event) (s : EventProcessor)
      → let (acked, s') = deletion_event calls e s in Counts acked true s s'
  unfolding deletion_event delete_document ensure_components
  deletion_event-Counts calls e s = ground arith

  index_document-Counts :
      (calls : Calls) (document : Document) (s : EventProcessor)
      → let (acked, s') = index_document calls batch_size document s in Counts acked true s s'
  unfolding index_document
  index_document-Counts calls document s = ground arith

  document_event-Counts :
      (calls : Calls) (d : Option Document) (s : EventProcessor)
      → let (acked, s') = document_event batch_size calls d s in Counts acked true s s'
  unfolding document_event ensure_components
  document_event-Counts calls none s = ground arith
  document_event-Counts calls (some document) s =
      ground (arith, index_document-Counts calls document (ensure_components calls s).1)

  process_event-Counts :
      (calls : Calls) (e : Event) (s : EventProcessor)
      → let (acked, s') = process_event strings batch_size calls e s in
        Counts acked (is_counted e) s s'
  unfolding process_event
  process_event-Counts calls e s = elim (Option-cases e.payload) [
    | inl no_json ↦ rw no_json ground arith
    | inr (p, json) ↦ ground (
      arith,
      json,
      deletion_event-Counts calls e s,
      document_event-Counts calls (event_to_document strings e p) s,
    )
  ]

  -- Over any events, with whatever happens to each, the processed and the skipped events are those
  -- that are acknowledged, and with the failed ones they are the events that have a source and a
  -- payload which is JSON: every other event is counted nowhere and never acknowledged.
  pub process_events-Counts :
      (es : List (Calls × Event)) (s : EventProcessor)
      → let (acked, s') = process_events strings batch_size es s in
        (settled s' ≡ settled s + acked)
        × (settled s' + s'.stats.failed ≡ settled s + s.stats.failed + counted es)
  unfolding process_events
  process_events-Counts [] s = ground arith
  process_events-Counts ((calls, e) ∷ es) s = ground (
    arith,
    process_event-Counts calls e s,
    process_events-Counts es (process_event strings batch_size calls e s).1,
  )
