-- ===== src/Observation/Scanner/Memory.antt =====
-- `read_memstat` of crates/orchestrator/src/observation/procfs_scanner.rs, and the bits of a device.
use preload_ng.Prelude.{ℕ, zero, suc, ◌+◌, ◌*◌, ◌/◌, ◌%◌, ◌^◌, max, Option, none, some}
use preload_ng.Domain.{MemStat}
use preload_ng.Error.{Outcome, ok, ◌>>=◌}
use preload_ng.Prelude.Int.{ℤ, pos, ◌*ℤ◌, quot, wrap_i64}

-- `procfs::Meminfo`, in bytes.
pub record Meminfo : Type 0 where
  pub mem_total : ℕ
  pub mem_available : Option ℕ
  pub mem_free : ℕ
  pub cached : ℕ

-- `pgpgin` and `pgpgout` of `procfs::vmstat`.
pub record VmStat : Type 0 where
  pub pgpgin : Option ℤ
  pub pgpgout : Option ℤ

pub record Procfs : Type 0 where
  pub meminfo : Outcome Meminfo
  pub vmstat : Outcome VmStat
  pub page_size : ℕ

-- `v * page / 1024` in `i64`.
abbrev pub pages_kb : ℕ → Option ℤ → ℤ
pages_kb page none = pos 0
pages_kb page (some v) = quot (wrap_i64 (v *ℤ pos page)) 1024

abbrev pub available_of : Meminfo → ℕ
available_of mem = elim mem.mem_available [
  | none ↦ (mem.mem_free + mem.cached) % 2 ^ 64
  | some available ↦ available
]

unfoldable pub read_memstat : Procfs → Outcome MemStat
read_memstat procfs = procfs.meminfo >>= λ mem. procfs.vmstat >>= λ vm. ok (record {
  total = mem.mem_total / 1024;
  available = available_of mem / 1024;
  free = mem.mem_free / 1024;
  cached = mem.cached / 1024;
  pagein = pages_kb procfs.page_size vm.pgpgin;
  pageout = pages_kb procfs.page_size vm.pgpgout;
})

-- The bitwise or of two numbers of `w` bits.
unfoldable pub or_bits : ℕ → ℕ → ℕ → ℕ
or_bits zero a b = 0
or_bits (suc w) a b = let rest = or_bits w (a / 2) (b / 2) in 2 * rest + max (a % 2) (b % 2)
