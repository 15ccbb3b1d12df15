-- ===== src/Prediction.antt =====
-- crates/orchestrator/src/prediction: how likely each exe and map is to be needed soon.
mod Defs
pub mod Scores
unfoldable pub use Defs.*
