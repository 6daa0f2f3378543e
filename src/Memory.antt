-- ===== src/Memory.antt =====
-- proxy/app/shared/memory_manager.py: the conversations that the proxy remembers, one for each session,
-- with the entities that are mentioned in them.
pub mod Strings
pub mod Tracker
pub mod Least
pub mod Pruning
pub mod Conversation
pub mod Summaries
pub mod Talks
pub mod Sessions
pub mod Order
pub mod Deletion
pub mod Limits
pub mod Full
mod Tests
