-- ===== src/Config/MemoryPolicy.antt =====
-- crates/config/src/memory_policy.rs and sort_strategy.rs.
use preload_ng.Prelude.{ltb, if◌then◌else◌}
use preload_ng.Prelude.Int.{ℤ, pos, negsuc}

pub record MemoryPolicy : Type 0 where
  pub memtotal : ℤ
  pub memavailable : ℤ

-- `i32::clamp(-100, 100)`.
unfoldable pub clamp_percent : ℤ → ℤ
clamp_percent (pos n) = if ltb 100 n then pos 100 else pos n
clamp_percent (negsuc n) = if ltb 99 n then negsuc 99 else negsuc n

unfoldable pub clamp : MemoryPolicy → MemoryPolicy
unfolding clamp_percent
clamp p = record {
  memtotal = clamp_percent p.memtotal;
  memavailable = clamp_percent p.memavailable;
}

pub data SortStrategy : Type 0 where
  unsorted by_path by_block by_inode : SortStrategy
