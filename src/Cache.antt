-- ===== src/Cache.antt =====
-- proxy/app/shared/cache.py: the cache in memory, the manager that puts a prefix before its keys, and
-- the cache of responses by the similarity of questions. Redis is left out. A time is a number of
-- seconds, and is read once in each operation.
pub mod Memory
pub mod Recall
pub mod Semantic
pub mod Hits
pub mod Lookups
mod Tests
