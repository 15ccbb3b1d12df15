-- ===== src/Observation/Scanner/Shape.antt =====
-- What an observation of crates/orchestrator/src/observation/procfs_scanner.rs consists of.
use preload_ng.Prelude.{
  ℕ, ◌≡◌, refl, inl, inr, true, Option, none, some, List, [], ◌∷◌, ◌++◌, arith, Option-cases, All,
  any, All-append, All-weaken, any-append_left, any-append_right,
}
use preload_ng.Domain.{FilePath}
use preload_ng.Prelude.Options.{IfSome}
use preload_ng.Prelude.Int.{low_bits}
use preload_ng.Observation.Event.{
  ObservationEvent, obs_begin, exe_seen, map_seen, mem_stat, obs_end, Observation,
}
use preload_ng.Observation.Fanotify.Recorded.{is_exe_seen}
use preload_ng.Observation.Scanner.Visit.{visit_all-keeps}
use preload_ng.Observation.Scanner.{
  ProcfsScanner, CachedMap, CachedProcess, MemoryMap, Process, cached_map, map_event, Collected,
  Progress, scan_lines, scan_maps, emit_cached_maps, saw_exe, scan_process, reuse_process,
  visit_all, ProcessMaps, maps_ok, maps_err,
}

abbrev pub Knows : Observation → FilePath → Type 0
Knows events exe_path = any (is_exe_seen exe_path) events ≡ true

-- An event between the begin and the end: a map is one of an exe that the same observation reports,
-- and has the time of the scan.
abbrev pub IsScanEvent : ℕ → Observation → ObservationEvent → Type 0
IsScanEvent time events (exe_seen path pid) = Unit
IsScanEvent time events (map_seen exe_path segment) =
    (segment.update_time ≡ time) × Knows events exe_path
IsScanEvent time events (mem_stat mem) = Unit
IsScanEvent time events (obs_begin _ _) = ⊥
IsScanEvent time events (obs_end _ _ _) = ⊥

IsScanEvent-append :
    (time : ℕ) (events new : Observation) (e : ObservationEvent)
    → IsScanEvent time events e
    → IsScanEvent time (events ++ new) e
IsScanEvent-append time events new (exe_seen _ _) h = tt
IsScanEvent-append time events new (map_seen exe_path _) (same, known) =
    (same, any-append_left (is_exe_seen exe_path) events new known)
IsScanEvent-append time events new (mem_stat _) h = tt
IsScanEvent-append time events new (obs_begin _ _) h = h
IsScanEvent-append time events new (obs_end _ _ _) h = h

module _ (time scan_id : ℕ) where
  -- The begin, and events between the begin and the end.
  abbrev pub IsBegun : Observation → Type 0
  IsBegun events =
      (inner : Observation) × (events ≡ obs_begin time scan_id ∷ inner)
      × All (IsScanEvent time events) inner

  pub IsBegun-append :
      (events new : Observation)
      → IsBegun events
      → All (IsScanEvent time (events ++ new)) new
      → IsBegun (events ++ new)
  IsBegun-append events new (inner, begun, h) h' = (
    inner ++ new,
    rw (begun) refl,
    All-append _ inner new (All-weaken (λ e. IsScanEvent-append time events new e) inner h) h',
  )

  add_map-IsBegun :
      (exe_path : FilePath) (cm : CachedMap) (events : Observation)
      → IsBegun events
      → Knows events exe_path
      → IsBegun (events ++ map_event exe_path time cm ∷ [])
  add_map-IsBegun exe_path cm events b k =
      IsBegun-append events (map_event exe_path time cm ∷ []) b (
        (refl, any-append_left (is_exe_seen exe_path) events (map_event exe_path time cm ∷ []) k),
        tt,
      )

  scan_lines-IsBegun :
      (exe_path : FilePath) (lines : List MemoryMap) (cached : List CachedMap)
      (events : Observation)
      → IsBegun events
      → Knows events exe_path
      → IsBegun (scan_lines exe_path time lines cached events).1
  unfolding scan_lines
  scan_lines-IsBegun exe_path [] cached events b k = b
  scan_lines-IsBegun exe_path (line ∷ lines) cached events b k =
      elim (Option-cases (cached_map line)) [
        | inl skipped ↦
            rw (scan_lines, skipped) (scan_lines-IsBegun exe_path lines cached events b k)
        | inr (cm, kept) ↦
            rw (scan_lines, kept)
              (scan_lines-IsBegun exe_path lines (cached ++ cm ∷ [])
                (events ++ map_event exe_path time cm ∷ []) (add_map-IsBegun exe_path cm events b k)
                (any-append_left (is_exe_seen exe_path) events (map_event exe_path time cm ∷ []) k))
      ]

  emit_cached_maps-IsBegun :
      (exe_path : FilePath) (maps : List CachedMap) (events : Observation)
      → IsBegun events
      → Knows events exe_path
      → IsBegun (emit_cached_maps exe_path maps time events)
  unfolding emit_cached_maps
  emit_cached_maps-IsBegun exe_path [] events b k = b
  emit_cached_maps-IsBegun exe_path (cm ∷ maps) events b k =
      emit_cached_maps-IsBegun exe_path maps (events ++ map_event exe_path time cm ∷ [])
        (add_map-IsBegun exe_path cm events b k)
        (any-append_left (is_exe_seen exe_path) events (map_event exe_path time cm ∷ []) k)

  scan_maps-IsBegun :
      (process : Process) (exe_path : FilePath) (out : Collected)
      → IsBegun out.events
      → Knows out.events exe_path
      → IsBegun (scan_maps process exe_path time out).1.events
  unfolding scan_maps
  scan_maps-IsBegun process exe_path out b k = go process.maps refl
    where
      go :
          (maps : ProcessMaps)
          → process.maps ≡ maps
          → IsBegun (scan_maps process exe_path time out).1.events
      go (maps_ok lines) e = rw (scan_maps, e) (scan_lines-IsBegun exe_path lines [] out.events b k)
      go (maps_err reason) e = rw (scan_maps, e) b

  saw_exe-IsBegun :
      (path : FilePath) (pid : ℕ) (out : Collected)
      → IsBegun out.events
      → IsBegun (saw_exe path pid out).events × Knows (saw_exe path pid out).events path
  saw_exe-IsBegun path pid out b = (
    IsBegun-append out.events (exe_seen path pid ∷ []) b (tt, tt),
    any-append_right (is_exe_seen path) out.events (exe_seen path pid ∷ []) (ground arith),
  )

  scan_process-IsBegun :
      (self : ProcfsScanner) (process : Process) (starttime : ℕ) (exe_path : FilePath)
      (progress : Progress)
      → IsBegun progress.0.events
      → IsBegun (scan_process self time process starttime exe_path progress).0.events
  unfolding scan_process
  scan_process-IsBegun self process starttime exe_path (out, seen) b =
      let (b', k) = saw_exe-IsBegun exe_path (low_bits 32 process.pid) out b in
      scan_maps-IsBegun process exe_path (saw_exe exe_path (low_bits 32 process.pid) out) b' k

  reuse_process-IsBegun :
      (process : Process) (cached : CachedProcess) (progress : Progress)
      → IsBegun progress.0.events
      → IsBegun (reuse_process time process cached progress).0.events
  unfolding reuse_process
  reuse_process-IsBegun process cached (out, seen) b =
      let (b', k) = saw_exe-IsBegun cached.exe_path (low_bits 32 process.pid) out b in
      emit_cached_maps-IsBegun cached.exe_path cached.maps
        (saw_exe cached.exe_path (low_bits 32 process.pid) out).events b' k

  All-any : (processes : List (Option Process)) → All (IfSome (λ _. Unit)) processes
  All-any [] = tt
  All-any (none ∷ processes) = (tt, All-any processes)
  All-any (some process ∷ processes) = (tt, All-any processes)

  pub visit_all-IsBegun :
      (self : ProcfsScanner) (processes : List (Option Process)) (progress : Progress)
      → IsBegun progress.0.events
      → IsBegun (visit_all self time processes progress).0.events
  visit_all-IsBegun self processes progress b =
      visit_all-keeps self time (λ _. Unit) (λ p. IsBegun p.0.events)
        (λ process starttime exe_path p _ _ h.
          scan_process-IsBegun self process starttime exe_path p h)
        (λ process cached p _ _ h. reuse_process-IsBegun process cached p h) processes progress
        (All-any processes) b
