-- ===== src/Stores/ExeMapIndex.antt =====
-- crates/orchestrator/src/stores/exe_map_index.rs: which exe has mapped which file, kept as two
-- hash maps of hash sets, one for each direction.
mod Defs
pub mod Related
unfoldable pub use Defs.*
