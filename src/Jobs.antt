-- ===== src/Jobs.antt =====
-- Background jobs: contrib/jobs/runner.py, models.py and the cancel operation of api.py (under
-- src/ninja_devx/contrib/jobs/).
mod Defs
mod Run
pub mod Outcomes
pub mod Cancel
pub mod Verdict
pub mod Interrupts
pub mod Stops
mod Examples
unfoldable pub use Defs.*
unfoldable pub use Run.*
