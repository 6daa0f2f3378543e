-- ===== src/Events.antt =====
-- etl/scheduler/event_processor.py, with delete_by_source_id of etl/indexer/qdrant_hybrid.py: from
-- the events of a wiki and of GitLab to the points of Qdrant. Points and calls of Qdrant are those of
-- Lake, and a vector is always computed. Enrichment, which changes no text, hash or source, is left
-- out, and so are the metadata of a document that nothing reads.
pub mod Documents
pub mod Processor
pub mod Deletion
pub mod Counters
pub mod Updates
mod Tests
