-- ===== src/Dlq.antt =====
-- proxy/app/shared/dlq.py: the class `DeadLetterQueue`, whose rows are in a SQLite table. The table
-- is the list of its rows by ascending id, which is the order of insertion; a time is a number of
-- whole seconds, an argument of each operation that reads the clock. The file, the connection and the
-- columns that only pass through (metadata) are left out.
pub mod Queue
pub mod Ids
pub mod Lookup
pub mod Stats
pub mod Lifecycle
pub mod Retries
pub mod Others
mod Tests
