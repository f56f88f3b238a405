-- ===== src/Tenancy.antt =====
-- The tenant of a request: security/tenancy.py (under src/ninja_devx/).
mod Defs
pub mod Cached
mod Examples
unfoldable pub use Defs.*
