-- ===== src/Stores/MarkovGraph.antt =====
-- crates/orchestrator/src/stores/markov_graph.rs: the Markov edges as a structure of arrays.
mod FourStates
mod Defs
mod Edge
pub mod Index
mod SwapRemove
pub mod Prune
pub mod Read
pub mod SelfEdges
unfoldable pub use FourStates.*
unfoldable pub use Defs.*
unfoldable pub use Edge.*
