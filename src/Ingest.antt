-- ===== src/Ingest.antt =====
-- src/ingest/mod.rs: one refresh of all the sources.
pub mod Tally
pub mod Run
pub mod Sources
mod Tests
pub mod Json
pub mod Nvd
pub mod Cisa
pub mod Epss
