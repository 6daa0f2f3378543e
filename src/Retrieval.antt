-- ===== src/Retrieval.antt =====
-- proxy/app/core/retrieval.py: the cache of the questions' embeddings, the fusion of two lists of hits,
-- the choice among hits by their scores, and the search for paths. A score is natural, in any unit.
pub mod Embeddings
pub mod Eviction
pub mod Fusion
pub mod Identifiers
pub mod Ranks
pub mod Knee
pub mod Explorer
pub mod Exploration
pub mod Walks
pub mod Cycles
pub mod Quality
mod ExplorerTests
mod Tests
