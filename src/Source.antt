-- ===== src/Source.antt =====
-- src/ingest/source.rs: what a source emits, the check of it, and the registry of the adapters.
pub mod Output
pub mod Registry
pub mod Tests
