-- ===== src/CommandLine.antt =====
-- crates/cli: the arguments, the paths of the configuration, and the services that are chosen.
pub mod Paths
pub mod Services
