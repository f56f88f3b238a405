-- ===== src/Dependencies.antt =====
-- Dependency injection: the container, its resolution engine and the startup check, in
-- dependencies/container.py, engine.py, state.py and scope.py (under src/ninja_devx/).
mod Defs
mod Checker
mod Engine
mod Container
pub mod Graph
pub mod Sound
pub mod Scopes
pub mod Provides
pub mod Resolves
pub mod Refines
pub mod Termination
pub mod Overrides
pub mod Waiters
pub mod Lifetimes
mod Examples
unfoldable pub use Defs.*
unfoldable pub use Checker.*
unfoldable pub use Engine.*
unfoldable pub use Container.*
