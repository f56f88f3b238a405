-- ===== src/SoftDelete.antt =====
-- Soft deletion: crud/soft_delete.py (under src/ninja_devx/).
mod Defs
pub mod Restore
mod Examples
unfoldable pub use Defs.*
