-- ===== src/Api.antt =====
-- src/api.rs: the HTTP interface.
pub mod Error
pub mod CveId
pub mod Query
pub mod Authorize
pub mod Diagnostics
mod Tests
pub mod Handlers
