-- ===== src/Prefetch.antt =====
-- crates/orchestrator/src/prefetch: which maps to prefetch, and how.
pub mod Sort
pub mod Planner
pub mod Report
pub mod Ranges
pub mod ReadLoop
pub mod Concurrent
