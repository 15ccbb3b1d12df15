-- ===== src/Stores.antt =====
-- crates/orchestrator/src/stores: the in-memory model of the system.
pub mod ExeMapIndex
pub mod MapStore
pub mod Keyed
pub mod ExeStore
pub mod ActiveSet
pub mod EdgeKey
pub mod MarkovGraph
pub mod Model
pub mod Invariant
pub mod Preserve
