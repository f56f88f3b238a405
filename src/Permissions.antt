-- ===== src/Permissions.antt =====
-- Permissions, their evaluation and their enforcement: security/permissions.py,
-- security/permission_leaf.py and _permission_eval.py with its async twin
-- (all under src/ninja_devx/).
mod Defs
mod Eval
mod Logic
mod Agree
pub mod User
pub mod Builtin
pub mod Owner
pub mod Sync
pub mod Objects
pub mod Blame
pub mod Gate
mod Examples
unfoldable pub use Defs.*
unfoldable pub use Eval.*
