-- ===== src/Observation/Scanner/Observed.antt =====
-- An observation of crates/orchestrator/src/observation/procfs_scanner.rs as a whole, and the time
-- that crates/orchestrator/src/observation/model_updater.rs takes from it.
use preload_ng.Prelude.{
  ℕ, ◌≡◌, refl, sym, ap, Option, none, some, List, [], ◌∷◌, ◌++◌, All, All-weaken, any-append_right,
}
use preload_ng.Domain.{MemStat}
use preload_ng.Error.{Outcome, ok, err, panic}
use preload_ng.Prelude.Int.{ℤ}
use preload_ng.Observation.Event.{
  ObservationEvent, obs_begin, exe_seen, map_seen, mem_stat, obs_end, Observation, ScanWarning,
}
use preload_ng.Observation.ModelUpdater.{Policy, Gathered, gather, gather_event}
use preload_ng.Observation.Fanotify.{EventBuffer, drain}
use preload_ng.Observation.Fanotify.Relation.{WatcherState, IsReachable}
use preload_ng.Observation.Fanotify.Recorded.{is_exe_seen, IsReport, drain-IsReport}
use preload_ng.Observation.Scanner.Memory.{Procfs, read_memstat}
use preload_ng.Observation.Scanner.{
  ProcfsScanner, Process, next_scan, visit_all, drained, memory_events, scan,
}
use preload_ng.Observation.Scanner.Shape.{IsScanEvent, IsBegun, IsBegun-append, visit_all-IsBegun}

-- The buffer of a watcher that has run for any time.
abbrev pub IsWatcherBuffer : Option EventBuffer → Type 0
IsWatcherBuffer none = Unit
IsWatcherBuffer (some buf) =
    (self_pid : ℤ) × (s : WatcherState) × IsReachable self_pid s × (buf ≡ s.buffer)

-- A report of a drain, among the events of a scan.
IsReport-IsScanEvent :
    (time : ℕ) (events fan : Observation) (e : ObservationEvent)
    → IsReport time fan e
    → IsScanEvent time (events ++ fan) e
IsReport-IsScanEvent time events fan (exe_seen _ _) h = tt
IsReport-IsScanEvent time events fan (map_seen exe_path _) (_, _, same, known) =
    (same, any-append_right (is_exe_seen exe_path) events fan known)
IsReport-IsScanEvent time events fan (mem_stat _) h = tt
IsReport-IsScanEvent time events fan (obs_begin _ _) h = h
IsReport-IsScanEvent time events fan (obs_end _ _ _) h = h

module _ (time scan_id : ℕ) where
  drained-IsBegun :
      (events : Observation) (fanotify : Option EventBuffer)
      → IsWatcherBuffer fanotify
      → IsBegun time scan_id events
      → IsBegun time scan_id (events ++ (drained fanotify time).0)
  drained-IsBegun events none w b = IsBegun-append time scan_id events [] b tt
  drained-IsBegun events (some buf) (self_pid, s, reach, same) b =
      IsBegun-append time scan_id events (drain buf time).0 b (
        All-weaken (IsReport-IsScanEvent time events (drain buf time).0) (drain buf time).0
          (rw same (drain-IsReport self_pid s time reach).0))

  memory_events-All :
      (events : Observation) (o : Outcome MemStat) → All (IsScanEvent time events) (memory_events o)
  memory_events-All events (ok mem) = (tt, tt)
  memory_events-All events (err _) = tt
  memory_events-All events panic = tt

  memory-IsBegun :
      (events : Observation) (o : Outcome MemStat)
      → IsBegun time scan_id events
      → IsBegun time scan_id (events ++ memory_events o)
  memory-IsBegun events o b =
      IsBegun-append time scan_id events (memory_events o) b
        (memory_events-All (events ++ memory_events o) o)

module _ {P : Type 0} (dyn : Policy P) (policy : P) where
  -- Only a begin sets the time.
  gather-now :
      (time : ℕ) (all inner : Observation) (t i : ℕ) (ws : List ScanWarning) (g : Gathered)
      → All (IsScanEvent time all) inner
      → (gather dyn policy g (inner ++ obs_end t i ws ∷ [])).now ≡ g.now
  unfolding gather gather_event
  gather-now time all [] t i ws g h = refl
  gather-now time all (exe_seen path pid ∷ inner) t i ws g (_, h) =
      gather-now time all inner t i ws (gather_event dyn policy g (exe_seen path pid)) h
  gather-now time all (map_seen path segment ∷ inner) t i ws g (_, h) =
      gather-now time all inner t i ws (gather_event dyn policy g (map_seen path segment)) h
  gather-now time all (mem_stat mem ∷ inner) t i ws g (_, h) = gather-now time all inner t i ws g h
  gather-now time all (obs_begin _ _ ∷ inner) t i ws g (never, h) = elim never [ ]
  gather-now time all (obs_end _ _ _ ∷ inner) t i ws g (never, h) = elim never [ ]

  -- A scan that can list the processes gives one observation: its begin, then exes, memory and maps,
  -- each map with the time of the scan and of an exe that the same observation reports, and its
  -- end. The model updater takes the time of the scan from it, whatever time it starts from. The
  -- watcher, if there is one, may have run for any time.
  pub scan-IsObservation :
      (self : ProcfsScanner) (fanotify : Option EventBuffer) (processes : List (Option Process))
      (procfs : Procfs) (time scan_id : ℕ) (g : Gathered)
      → IsWatcherBuffer fanotify
      → (inner : Observation) × (warnings : List ScanWarning) × ((scan self fanotify
            (ok processes)
            procfs
            time
            scan_id).0
          ≡ ok (obs_begin time scan_id ∷ inner ++ obs_end time scan_id warnings ∷ []))
        × All (IsScanEvent time (obs_begin time scan_id ∷ inner)) inner
        × ((gather dyn policy g
              (obs_begin time scan_id ∷ inner ++ obs_end time scan_id warnings ∷ [])).now
            ≡ time)
  unfolding scan gather gather_event
  scan-IsObservation self fanotify processes procfs time scan_id g w =
      let (out, seen_pids) =
        visit_all (next_scan self) time processes
          (record { events = obs_begin time scan_id ∷ []; warnings = [] }, []) in
      let visited : IsBegun time scan_id out.events =
        visit_all-IsBegun time scan_id (next_scan self) processes
          (record { events = obs_begin time scan_id ∷ []; warnings = [] }, []) ([], refl, tt) in
      let (inner, same, inside) =
        memory-IsBegun time scan_id (out.events ++ (drained fanotify time).0) (read_memstat procfs)
          (drained-IsBegun time scan_id out.events fanotify w visited) in
      (
        inner,
        out.warnings,
        ap (λ es. ok (es ++ obs_end time scan_id out.warnings ∷ [])) same,
        rw (sym same) inside,
        gather-now time (obs_begin time scan_id ∷ inner) inner time scan_id out.warnings
            (record g { now = time }) (rw (sym same) inside),
      )
