-- ===== src/Config.antt =====
-- crates/config: the settings that the rest of the program reads.
pub mod MemoryPolicy
pub mod Merge
pub mod Settings
pub mod Files
