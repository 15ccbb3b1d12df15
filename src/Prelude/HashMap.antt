-- ===== src/Prelude/HashMap.antt =====
-- `HashMap` and `HashSet` of Rust's standard library (`FxHashMap` and `FxHashSet` change the hash
-- function only), as association lists. The list's order stands for the order of iteration, which
-- Rust leaves open: what is proved of a map speaks of `get`.
mod Defs
mod Laws
mod Unique
mod OrInsert
unfoldable pub use Defs.*
pub use Laws.*
pub use Unique.*
pub use OrInsert.*
