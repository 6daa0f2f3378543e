-- ===== src/Chunking.antt =====
-- etl/chunker/semantic_chunker.py: what the chunkers do with the pieces of a document. Texts are
-- measured and cut by arguments; how a document is split into pieces is left out.
pub mod Chunks
pub mod Merging
pub mod Packing
pub mod Paragraphs
pub mod Elements
pub mod Losses
mod Tests
