-- ===== src/Prefetch/Report.antt =====
-- `PrefetchReport` of crates/orchestrator/src/prefetch/plan.rs.
use preload_ng.Prelude.{ℕ, List}
use preload_ng.Domain.{MapKey}

pub record PrefetchReport : Type 0 where
  pub num_maps : ℕ
  pub total_bytes : ℕ
  pub failures : List MapKey
