-- ===== src/Observation/Scanner.antt =====
-- crates/orchestrator/src/observation/procfs_scanner.rs: the scan of the running processes. What
-- procfs reads is an argument: `all_processes` with each process's files, and the memory statistics.
pub mod Paths
pub mod Memory
pub mod Visit
pub mod Shape
pub mod Observed
pub mod Reading
pub mod Cache
use preload_ng.Prelude.{
  ℕ, ◌+◌, ◌-◌, ◌*◌, ◌/◌, ◌%◌, ◌^◌, ◌<◌, ap, not, Option, none, some, List, [], ◌∷◌, ◌++◌, map,
  ℕ_discrete, leb, ◌==◌, if◌then◌else◌, set,
}
use preload_ng.Domain.{FilePath, MapSegment, MemStat, new_segment}
use preload_ng.Error.{Outcome, ok, err, panic}
use preload_ng.Prelude.HashMap.{HashMap, get, insert}
use preload_ng.Prelude.Int.{ℤ, low_bits}
use preload_ng.Observation.Event.{
  ScanWarning, map_scan_failed, ObservationEvent, obs_begin, exe_seen, map_seen, mem_stat, obs_end,
  Observation,
}
use preload_ng.Observation.Fanotify.{EventBuffer, drain}
use preload_ng.Observation.Scanner.Paths.{sanitize_path}
use preload_ng.Observation.Scanner.Memory.{Procfs, read_memstat, or_bits}

abbrev pub default_map_rescan_interval : ℕ
default_map_rescan_interval = 5

pub record CachedMap : Type 0 where
  pub path : FilePath
  pub offset : ℕ
  pub length : ℕ
  pub device : ℕ
  pub inode : ℕ

pub record CachedProcess : Type 0 where
  pub starttime : ℕ
  pub exe_path : FilePath
  pub maps : List CachedMap
  pub last_map_scan : ℕ

-- The watcher is a part of the state that the scan is given.
pub record ProcfsScanner : Type 0 where
  pub cache : HashMap ℕ CachedProcess
  pub scan_count : ℕ
  pub map_rescan_interval : ℕ

-- `ProcfsScanner::new` and its `Default`.
abbrev pub new_scanner : ProcfsScanner
new_scanner = record {
  cache = [];
  scan_count = 0;
  map_rescan_interval = default_map_rescan_interval;
}

-- A line of `/proc/{pid}/maps`; the path is none unless it is `MMapPath::Path`.
pub record MemoryMap : Type 0 where
  pub address : ℕ × ℕ
  pub offset : ℕ
  pub dev : ℤ × ℤ
  pub inode : ℕ
  pub pathname : Option FilePath

pub data ProcessMaps : Type 0 where
  maps_ok : List MemoryMap → ProcessMaps
  maps_err : (reason : List ℕ) → ProcessMaps

-- A process, with what its `stat`, `exe` and `maps` give when the scan reads them.
pub record Process : Type 0 where
  pub pid : ℤ
  pub starttime : Option ℕ
  pub exe : Option FilePath
  pub maps : ProcessMaps

-- `((dev.0 as u64) << 20) | (dev.1 as u64)`.
abbrev pub device_of : ℤ × ℤ → ℕ
device_of dev = or_bits 64 (low_bits 64 dev.0 * 2 ^ 20 % 2 ^ 64) (low_bits 64 dev.1)

-- The map that is cached for a line, unless the loop skips it.
unfoldable pub cached_map : MemoryMap → Option CachedMap
cached_map line = elim line.pathname [
  | none ↦ none
  | some pathname ↦ elim (sanitize_path pathname) [
    | none ↦ none
    | some path ↦ some (record {
      path = path;
      offset = line.offset;
      length = line.address.1 - line.address.0;
      device = device_of line.dev;
      inode = line.inode;
    })
  ]
]

abbrev pub map_event : FilePath → ℕ → CachedMap → ObservationEvent
map_event exe_path time cm =
    map_seen exe_path (record (new_segment cm.path cm.offset cm.length time) {
      device = cm.device;
      inode = cm.inode;
    })

-- What a scan has collected so far.
pub record Collected : Type 0 where
  pub events : List ObservationEvent
  pub warnings : List ScanWarning

-- The loop of `scan_maps`.
unfoldable pub scan_lines :
    FilePath
    → ℕ
    → List MemoryMap
    → List CachedMap
    → List ObservationEvent
    → List CachedMap × List ObservationEvent
scan_lines exe_path time [] cached_maps events = (cached_maps, events)
scan_lines exe_path time (line ∷ lines) cached_maps events = elim (cached_map line) [
  | none ↦ scan_lines exe_path time lines cached_maps events
  | some cm ↦
      scan_lines exe_path time lines (cached_maps ++ cm ∷ [])
        (events ++ map_event exe_path time cm ∷ [])
]

unfoldable pub scan_maps : Process → FilePath → ℕ → Collected → List CachedMap × Collected
scan_maps process exe_path time out = elim process.maps [
  | maps_ok lines ↦
      let (cached_maps, events) = scan_lines exe_path time lines [] out.events in
      (cached_maps, record { events = events; warnings = out.warnings })
  | maps_err reason ↦ (
    [],
    record {
      events = out.events;
      warnings = out.warnings ++ map_scan_failed (low_bits 32 process.pid) reason ∷ [];
    },
  )
]

unfoldable pub emit_cached_maps :
    FilePath → List CachedMap → ℕ → List ObservationEvent → List ObservationEvent
emit_cached_maps exe_path [] time events = events
emit_cached_maps exe_path (cm ∷ maps) time events =
    emit_cached_maps exe_path maps time (events ++ map_event exe_path time cm ∷ [])

-- The events and the cache of the processes seen so far.
abbrev pub Progress : Type 0
Progress = Collected × HashMap ℕ CachedProcess

abbrev pub saw_exe : FilePath → ℕ → Collected → Collected
saw_exe path pid out = record out { events = out.events ++ exe_seen path pid ∷ [] }

-- A process whose maps are read in this scan.
unfoldable pub scan_process : ProcfsScanner → ℕ → Process → ℕ → FilePath → Progress → Progress
scan_process self time process starttime exe_path (out, seen_pids) =
    let pid = low_bits 32 process.pid in
    let (maps, out') = scan_maps process exe_path time (saw_exe exe_path pid out) in
    (
      out',
      insert ℕ_discrete seen_pids pid (record {
        starttime = starttime;
        exe_path = exe_path;
        maps = maps;
        last_map_scan = self.scan_count;
      }),
    )

-- A process whose cached maps are reported again.
unfoldable pub reuse_process : ℕ → Process → CachedProcess → Progress → Progress
reuse_process time process cached (out, seen_pids) =
    let pid = low_bits 32 process.pid in
    let begun = saw_exe cached.exe_path pid out in
    (
      record begun { events = emit_cached_maps cached.exe_path cached.maps time begun.events },
      insert ℕ_discrete seen_pids pid cached,
    )

-- A process that the cache knows: its maps are read again when the interval is over.
unfoldable pub visit_known : ProcfsScanner → ℕ → Process → ℕ → CachedProcess → Progress → Progress
visit_known self time process starttime cached progress =
    if leb self.map_rescan_interval (self.scan_count - cached.last_map_scan)
    then scan_process self time process starttime cached.exe_path progress
    else reuse_process time process cached progress

-- A pid that is new, or that another process has now.
unfoldable pub visit_new : ProcfsScanner → ℕ → Process → ℕ → Progress → Progress
visit_new self time process starttime progress = elim process.exe [
  | none ↦ progress
  | some exe ↦ elim (sanitize_path exe) [
    | none ↦ progress
    | some exe_path ↦ scan_process self time process starttime exe_path progress
  ]
]

-- The body of the loop of `scan`; a process that cannot be read is none.
unfoldable pub visit : ProcfsScanner → ℕ → Option Process → Progress → Progress
visit self time none progress = progress
visit self time (some process) progress = elim process.starttime [
  | none ↦ progress
  | some starttime ↦ elim (get ℕ_discrete self.cache (low_bits 32 process.pid)) [
    | none ↦ visit_new self time process starttime progress
    | some cached ↦
        if cached.starttime == starttime
        then visit_known self time process starttime cached progress
        else visit_new self time process starttime progress
  ]
]

unfoldable pub visit_all : ProcfsScanner → ℕ → List (Option Process) → Progress → Progress
visit_all self time [] progress = progress
visit_all self time (process ∷ processes) progress =
    visit_all self time processes (visit self time process progress)

abbrev pub drained : Option EventBuffer → ℕ → Observation × Option EventBuffer
drained none time = ([], none)
drained (some buf) time = ((drain buf time).0, some (drain buf time).1)

-- `self.scan_count += 1`.
abbrev pub next_scan : ProcfsScanner → ProcfsScanner
next_scan self = record self { scan_count = (self.scan_count + 1) % 2 ^ 64 }

abbrev pub memory_events : Outcome MemStat → List ObservationEvent
memory_events (ok mem) = mem_stat mem ∷ []
memory_events (err _) = []
memory_events panic = []

-- `scan`: the observation, the scanner and the buffer of the watcher.
unfoldable pub scan :
    ProcfsScanner
    → Option EventBuffer
    → Outcome (List (Option Process))
    → Procfs
    → ℕ
    → ℕ
    → Outcome Observation × ProcfsScanner × Option EventBuffer
scan self fanotify (ok processes) procfs time scan_id =
    let self' = next_scan self in
    let begun : Progress = (record { events = obs_begin time scan_id ∷ []; warnings = [] }, []) in
    let (out, seen_pids) = visit_all self' time processes begun in
    let (fan_events, fanotify') = drained fanotify time in
    (
      ok (
          out.events
          ++ fan_events
          ++ memory_events (read_memstat procfs)
          ++ obs_end time scan_id out.warnings ∷ []),
      record self' { cache = seen_pids },
      fanotify',
    )
scan self fanotify (err e) procfs time scan_id = (err e, next_scan self, fanotify)
scan self fanotify panic procfs time scan_id = (panic, next_scan self, fanotify)
