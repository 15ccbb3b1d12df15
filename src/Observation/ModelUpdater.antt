-- ===== src/Observation/ModelUpdater.antt =====
-- crates/orchestrator/src/observation/model_updater.rs: an observation changes the model.
mod Defs
pub mod Preserves
pub mod Total
unfoldable pub use Defs.*
