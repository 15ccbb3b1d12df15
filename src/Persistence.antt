-- ===== src/Persistence.antt =====
-- crates/orchestrator/src/persistence: the snapshot of the model in a SQLite database.
pub mod Tables
pub mod Rows
pub mod Repo
pub mod Inserts
pub mod Casts
pub mod Storable
pub mod Written
pub mod Faults
pub mod Atomic
pub mod RoundTrip
