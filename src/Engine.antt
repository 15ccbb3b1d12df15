-- ===== src/Engine.antt =====
-- crates/orchestrator/src/engine.rs and persistence/snapshot.rs: the cycle of the program.
pub mod Snapshot
pub mod Restore
pub mod Tick
pub mod Run
