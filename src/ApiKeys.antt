-- ===== src/ApiKeys.antt =====
-- API keys: contrib/apikeys/auth.py, and the operations of models.py and api.py in the same folder
-- (under src/ninja_devx/).
mod Defs
mod Scopes
mod Manage
pub mod Parse
pub mod Created
pub mod Steps
pub mod Accepted
pub mod Revoked
pub mod Limits
pub mod Grants
pub mod Owners
mod Examples
unfoldable pub use Defs.*
unfoldable pub use Scopes.*
unfoldable pub use Manage.*
