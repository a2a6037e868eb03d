-- ===== src/Db.antt =====
-- src/db.rs: the repository. Its statements are taken to succeed but for the checks of the schema,
-- one transaction at a time: the write gate orders the transactions of the program, and SQLite
-- commits each as a whole.
pub mod SyncState
pub mod Backoff
pub mod Store
pub mod Items
pub mod Page
pub mod Retention
pub mod Stats
pub mod Health
pub mod Evidence
pub mod Samples
mod Tests
