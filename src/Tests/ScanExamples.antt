-- ===== src/Tests/ScanExamples.antt =====
-- The theorems about the scans and the watcher, at small inputs.
use preload_ng.Prelude.{
  ◌<◌, ◌≡◌, refl, true, false, none, some, List, [], ◌∷◌, ◌++◌, arith, ℕ_discrete, All, any,
}
use preload_ng.Domain.{to_str}
use preload_ng.Observation.Admission.{starts_with}
use preload_ng.Error.{ok}
use preload_ng.Prelude.HashMap.{get, insert}
use preload_ng.Prelude.Int.{pos, low_bits}
use preload_ng.Observation.Event.{Observation, obs_begin, obs_end, ScanWarning}
use preload_ng.Observation.ModelUpdater.{Gathered, gather}
use preload_ng.Observation.Fanotify.{
  empty_buffer, Files, FanotifyEvent, Opened, opened_of, is_skipped, file_meta_of, drain,
}
use preload_ng.Observation.Fanotify.Relation.{
  WatcherState, started, at_head, handling, handle_event, handles, finishes, reads, done, after,
  IsReachable, start, step,
}
use preload_ng.Observation.Fanotify.Recorded
use preload_ng.Observation.Fanotify.Recorded.{is_exe_seen, IsReport}
use preload_ng.Observation.Fanotify.UntilDrain
use preload_ng.Observation.Fanotify.UntilDrain.{is_map_seen}
use preload_ng.Observation.Scanner.Memory.{Procfs, or_bits}
use preload_ng.Observation.Scanner.Paths.{sanitize_path, has_root, contains_text, before}
use preload_ng.Observation.Scanner.{
  ProcfsScanner, CachedProcess, new_scanner, Process, maps_ok, visit_all, visit, visit_new,
  scan_process, visit_known, reuse_process, scan_maps, scan_lines, cached_map, Collected,
  emit_cached_maps, scan,
}
use preload_ng.Observation.Scanner.Shape.{IsScanEvent}
use preload_ng.Observation.Scanner.Observed
use preload_ng.Observation.Scanner.Cache
use preload_ng.Observation.Scanner.Reading
use preload_ng.Observation.Scanner.Cache.{IsScanner, created, scanned, IsReadIn}
use preload_ng.Tests.Samples.{path_a, path_b}
use preload_ng.Tests.CycleExamples.{accept_all}

-- The process 7 runs `/a` and opens `/b`.
abbrev files : Files
files = record {
  fd_link = λ fd. some path_b;
  exe_link = λ pid. some path_a;
  metadata = λ path. some (record { is_file = true; len = 100; st_dev = 2049; st_ino = 5 });
}

abbrev open_event : FanotifyEvent
open_event = record { fd = some (pos 3); pid = pos 7 }

abbrev opened_b : Opened
opened_b = record {
  opening = (path_a, path_b);
  file_meta = record { size = 100; device = 2049; inode = 5 };
  pid = 7;
}

abbrev before_event : WatcherState
before_event = record started { reader = handling (open_event ∷ []) }

abbrev after_event : WatcherState
after_event = record {
  buffer = handle_event files (pos 1) open_event empty_buffer;
  stop = false;
  reader = handling [];
}

abbrev watching : IsReachable (pos 1) after_event
watching = step (step start (reads (open_event ∷ []) refl refl)) (handles files open_event [] refl)

drain-IsReport_example :
    All (IsReport 9 (drain after_event.buffer 9).0) (drain after_event.buffer 9).0
    × ((drain after_event.buffer 9).1 ≡ empty_buffer)
drain-IsReport_example = Recorded.drain-IsReport (pos 1) after_event 9 watching

opened_of-b : opened_of files (pos 1) open_event ≡ some opened_b
unfolding opened_of is_skipped file_meta_of to_str starts_with low_bits
opened_of-b = refl

recorded-until_drain_example :
    (any (is_map_seen opened_b.opening) (drain after_event.buffer 9).0 ≡ true)
    × (any (is_exe_seen opened_b.opening.0) (drain after_event.buffer 9).0 ≡ true)
recorded-until_drain_example =
    UntilDrain.recorded-until_drain (pos 1) files open_event [] opened_b before_event
      (record after_event { reader = at_head }) 9 refl opened_of-b (after (finishes refl) done)

abbrev process_a : Process
process_a = record {
  pid = pos 7;
  starttime = some 100;
  exe = some path_a;
  maps = maps_ok (
      record {
        address = (4096, 8192);
        offset = 0;
        dev = (pos 8, pos 1);
        inode = 5;
        pathname = some path_a;
      }
      ∷ []);
}

abbrev procfs : Procfs
procfs = record {
  meminfo = ok (record { mem_total = 4096; mem_available = none; mem_free = 1024; cached = 1024 });
  vmstat = ok (record { pgpgin = some (pos 3); pgpgout = none });
  page_size = 4096;
}

abbrev nothing_gathered : Gathered
nothing_gathered = record { candidates = []; running_paths = []; now = 0 }

scan-IsObservation_example :
    (inner : Observation) × (warnings : List ScanWarning) × ((scan new_scanner
        (some after_event.buffer)
        (ok (some process_a ∷ none ∷ []))
        procfs
        9
        1).0
      ≡ ok (obs_begin 9 1 ∷ inner ++ obs_end 9 1 warnings ∷ []))
    × All (IsScanEvent 9 (obs_begin 9 1 ∷ inner)) inner
    × ((gather accept_all tt nothing_gathered
          (obs_begin 9 1 ∷ inner ++ obs_end 9 1 warnings ∷ [])).now
        ≡ 9)
scan-IsObservation_example =
    Observed.scan-IsObservation accept_all tt new_scanner (some after_event.buffer)
      (some process_a ∷ none ∷ []) procfs 9 1 nothing_gathered (pos 1, after_event, watching, refl)

abbrev once : ProcfsScanner
once = (scan new_scanner none (ok (some process_a ∷ [])) procfs 9 1).1

abbrev entry_a : CachedProcess
entry_a = record {
  starttime = 100;
  exe_path = path_a;
  maps = record { path = path_a; offset = 0; length = 4096; device = 8_388_609; inode = 5 } ∷ [];
  last_map_scan = 1;
}

cache-entry_a :
    get ℕ_discrete (scan once none (ok (some process_a ∷ [])) procfs 29 2).1.cache 7 ≡ some entry_a
unfolding scan get visit_all visit visit_new sanitize_path has_root starts_with to_str contains_text
    scan_process insert ℕ_discrete low_bits visit_known reuse_process before scan_maps scan_lines
    or_bits cached_map
cache-entry_a = refl

scan-IsReadIn_example :
    (r : IsReadIn ((some process_a ∷ []) ∷ (some process_a ∷ []) ∷ []) 2 7 entry_a) × (r.age < 5)
scan-IsReadIn_example =
    Cache.scan-IsReadIn once ((some process_a ∷ []) ∷ []) none (some process_a ∷ []) procfs 29 2 7
      entry_a (scanned none (some process_a ∷ []) procfs 9 1 created) (omega arith) cache-entry_a

abbrev begun : Collected
begun = record { events = obs_begin 9 1 ∷ []; warnings = [] }

abbrev later : Collected
later = record { events = obs_begin 29 2 ∷ []; warnings = [] }

emit_cached_maps-scan_maps_example :
    emit_cached_maps path_a (scan_maps process_a path_a 9 begun).0 29 later.events
    ≡ (scan_maps process_a path_a 29 later).1.events
emit_cached_maps-scan_maps_example =
    Reading.emit_cached_maps-scan_maps process_a path_a 9 29 begun later
