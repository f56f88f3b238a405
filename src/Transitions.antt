-- ===== src/Transitions.antt =====
-- State transitions of resources: crud/transitions.py and the object lookup of crud/controllers.py
-- (under src/ninja_devx/crud/).
mod Defs
pub mod Listing
pub mod States
mod Examples
unfoldable pub use Defs.*
