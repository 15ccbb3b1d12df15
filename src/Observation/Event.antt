-- ===== src/Observation/Event.antt =====
-- crates/orchestrator/src/observation/event.rs, and `CandidateExe` of observation/mod.rs.
use preload_ng.Prelude.{ℕ, List, []}
use preload_ng.Domain.{FilePath, MapSegment, MemStat}

-- The reason is a message.
pub data ScanWarning : Type 0 where
  map_scan_failed : (pid : ℕ) (reason : List ℕ) → ScanWarning

pub data ObservationEvent : Type 0 where
  obs_begin : (time scan_id : ℕ) → ObservationEvent
  exe_seen : (path : FilePath) (pid : ℕ) → ObservationEvent
  map_seen : (exe_path : FilePath) (segment : MapSegment) → ObservationEvent
  mem_stat : (mem : MemStat) → ObservationEvent
  obs_end : (time scan_id : ℕ) (warnings : List ScanWarning) → ObservationEvent

abbrev pub Observation : Type 0
Observation = List ObservationEvent

pub record CandidateExe : Type 0 where
  pub path : FilePath
  pub pid : ℕ
  pub maps : List MapSegment
  pub total_size : ℕ
  pub rejected_maps : List FilePath

-- `CandidateExe::new`.
abbrev pub new_candidate : FilePath → ℕ → CandidateExe
new_candidate path pid = record {
  path = path;
  pid = pid;
  maps = [];
  total_size = 0;
  rejected_maps = [];
}
