-- ===== src/Observation/Scanner/Visit.antt =====
-- The loop of `scan` in crates/orchestrator/src/observation/procfs_scanner.rs does nothing but scan
-- processes and report cached ones again.
use preload_ng.Prelude.{
  ℕ, ◌-◌, ◌<◌, ◌≡◌, inl, inr, Option, none, some, List, [], ◌∷◌, arith, ℕ_discrete, leb, ◌==◌,
  Bool-cases, Option-cases, All,
}
use preload_ng.Domain.{FilePath}
use preload_ng.Prelude.HashMap.{get}
use preload_ng.Prelude.Options.{IfSome}
use preload_ng.Prelude.Int.{low_bits}
use preload_ng.Observation.Scanner.Paths.{sanitize_path}
use preload_ng.Observation.Scanner.{
  ProcfsScanner, CachedProcess, Process, Progress, scan_process, reuse_process, visit_known,
  visit_new, visit, visit_all,
}

module _ (self : ProcfsScanner) (time : ℕ) (Q : Process → Type 0) (P : Progress → Type 0)
    (scans : (process : Process) (starttime : ℕ) (exe_path : FilePath) (progress : Progress)
      → Q process
      → process.starttime ≡ some starttime
      → P progress
      → P (scan_process self time process starttime exe_path progress))
    (reuses : (process : Process) (cached : CachedProcess) (progress : Progress)
      → get ℕ_discrete self.cache (low_bits 32 process.pid) ≡ some cached
      → self.scan_count - cached.last_map_scan < self.map_rescan_interval
      → P progress
      → P (reuse_process time process cached progress)) where
  visit_known-keeps :
      (process : Process) (starttime : ℕ) (cached : CachedProcess) (progress : Progress)
      → get ℕ_discrete self.cache (low_bits 32 process.pid) ≡ some cached
      → Q process
      → process.starttime ≡ some starttime
      → P progress
      → P (visit_known self time process starttime cached progress)
  unfolding visit_known
  visit_known-keeps process starttime cached progress known q read p =
      elim (Bool-cases (leb self.map_rescan_interval (self.scan_count - cached.last_map_scan))) [
        | inl over ↦
            rw (visit_known, over) (scans process starttime cached.exe_path progress q read p)
        | inr fresh ↦
            rw (visit_known, fresh) (reuses process cached progress known (ground arith) p)
      ]

  visit_new-keeps :
      (process : Process) (starttime : ℕ) (progress : Progress)
      → Q process
      → process.starttime ≡ some starttime
      → P progress
      → P (visit_new self time process starttime progress)
  unfolding visit_new
  visit_new-keeps process starttime progress q started p = elim (Option-cases process.exe) [
    | inl unread ↦ rw (visit_new, unread) p
    | inr (exe, read) ↦ elim (Option-cases (sanitize_path exe)) [
      | inl unfit ↦ rw (visit_new, read, unfit) p
      | inr (exe_path, fit) ↦
          rw (visit_new, read, fit) (scans process starttime exe_path progress q started p)
    ]
  ]

  visit-keeps :
      (process : Option Process) (progress : Progress)
      → IfSome Q process
      → P progress
      → P (visit self time process progress)
  unfolding visit
  visit-keeps none progress q p = p
  visit-keeps (some process) progress q p = elim (Option-cases process.starttime) [
    | inl unread ↦ rw (visit, unread) p
    | inr (starttime, read) ↦
        elim (Option-cases (get ℕ_discrete self.cache (low_bits 32 process.pid))) [
          | inl unknown ↦
              rw (visit, read, unknown) (visit_new-keeps process starttime progress q read p)
          | inr (cached, known) ↦ elim (Bool-cases (cached.starttime == starttime)) [
            | inl same ↦
                rw (visit, read, known, same)
                  (visit_known-keeps process starttime cached progress known q read p)
            | inr other ↦
                rw (visit, read, known, other) (visit_new-keeps process starttime progress q read p)
          ]
        ]
  ]

  pub visit_all-keeps :
      (processes : List (Option Process)) (progress : Progress)
      → All (IfSome Q) processes
      → P progress
      → P (visit_all self time processes progress)
  unfolding visit_all
  visit_all-keeps [] progress q p = p
  visit_all-keeps (process ∷ processes) progress (q, qs) p =
      visit_all-keeps processes (visit self time process progress) qs
        (visit-keeps process progress q p)
