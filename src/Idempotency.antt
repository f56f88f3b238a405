-- ===== src/Idempotency.antt =====
-- Idempotent requests: the durable claims of idempotency/store.py and the policy of
-- idempotency/policy.py (under src/ninja_devx/).
mod Store
mod Policy
pub mod Headers
pub mod Replay
pub mod Ownership
pub mod Separation
mod Examples
unfoldable pub use Store.*
unfoldable pub use Policy.*
