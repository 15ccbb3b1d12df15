-- ===== src/Observation.antt =====
-- crates/orchestrator/src/observation: what is seen of the running processes, and the model's update.
pub mod Event
pub mod Admission
pub mod ModelUpdater
pub mod Fanotify
pub mod Scanner
