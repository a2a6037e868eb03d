-- ===== src/Models.antt =====
-- src/models.rs: the records that the components exchange. A number of any width is a number, since
-- the program stores none that is negative; `F` is the type of the `f64` values.
mod Input
mod Stored
mod Refresh
unfoldable pub use Input.*
pub use Stored.*
unfoldable pub use Refresh.*
