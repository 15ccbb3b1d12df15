-- ===== src/Prefetch/Planner.antt =====
-- crates/orchestrator/src/prefetch/planner.rs: the greedy choice of maps within a memory budget.
mod Defs
pub mod Perm
pub mod Candidates
pub mod Selection
pub mod Budget
unfoldable pub use Defs.*
