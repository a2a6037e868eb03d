-- ===== src/Http.antt =====
-- src/ingest/http.rs: the outbound HTTP client and its policies.
pub mod Address
pub mod Url
pub mod Redirect
pub mod Fetch
pub mod Tests
