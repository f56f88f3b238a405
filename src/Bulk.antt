-- ===== src/Bulk.antt =====
-- Bulk operations: crud/bulk.py, with `refresh` of crud/controllers.py and the transactions of
-- crud/writes.py (under src/ninja_devx/).
mod Defs
mod Objects
mod Operations
pub mod Rollback
pub mod Results
pub mod Fetched
mod Examples
unfoldable pub use Defs.*
unfoldable pub use Objects.*
unfoldable pub use Operations.*
