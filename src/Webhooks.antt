-- ===== src/Webhooks.antt =====
-- Webhooks: publishing to the outbox and delivering from it, contrib/webhooks/outbox.py and
-- models.py (under src/ninja_devx/contrib/webhooks/).
mod Defs
mod Publish
mod Deliver
mod Loop
pub mod Kept
pub mod Runs
pub mod Settle
pub mod Lease
pub mod Audience
pub mod Patterns
pub mod Batches
pub mod Targets
mod Examples
pub mod Promises
unfoldable pub use Defs.*
unfoldable pub use Publish.*
unfoldable pub use Deliver.*
unfoldable pub use Loop.*
