-- ===== src/Throttling.antt =====
-- Rate limits: http/throttling.py (under src/ninja_devx/).
mod Defs
pub mod Windows
pub mod Rates
mod Examples
unfoldable pub use Defs.*
