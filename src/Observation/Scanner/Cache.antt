-- ===== src/Observation/Scanner/Cache.antt =====
-- The process cache of crates/orchestrator/src/observation/procfs_scanner.rs: where each entry was read.
use preload_ng.Prelude.{
  ℕ, suc, ◌+◌, ◌^◌, ◌<◌, ◌≡◌, refl, sym, subst, Option, none, some, List, [], ◌∷◌, arith,
  ℕ_discrete, length, get_elem?, All, All-weaken,
}
use preload_ng.Error.{Error, ok, err}
use preload_ng.Prelude.HashMap.{get, insert-All, get-All}
use preload_ng.Prelude.Int.{low_bits}
use preload_ng.Prelude.Options.{IfSome}
use preload_ng.Observation.Event.{obs_begin}
use preload_ng.Observation.Fanotify.{EventBuffer}
use preload_ng.Observation.Scanner.Memory.{Procfs}
use preload_ng.Observation.Scanner.{
  default_map_rescan_interval, CachedProcess, ProcfsScanner, new_scanner, Process, Collected,
  saw_exe, scan_process, reuse_process, visit_all, next_scan, scan,
}
use preload_ng.Observation.Scanner.Visit.{visit_all-keeps}
use preload_ng.Observation.Scanner.Reading.{read_maps, scan_maps_lem}

-- The processes of each scan, the last one first; none if they could not be listed.
abbrev pub History : Type 0
History = List (List (Option Process))

-- The scanners that scans lead to.
pub data IsScanner : ProcfsScanner → History → Type 0 where
  created : IsScanner new_scanner []
  scanned :
      {self : ProcfsScanner} {history : History} (fanotify : Option EventBuffer)
      (processes : List (Option Process)) (procfs : Procfs) (time scan_id : ℕ)
      → IsScanner self history
      → IsScanner (scan self fanotify (ok processes) procfs time scan_id).1 (processes ∷ history)
  failed :
      {self : ProcfsScanner} {history : History} (fanotify : Option EventBuffer) (e : Error)
      (procfs : Procfs) (time scan_id : ℕ)
      → IsScanner self history
      → IsScanner (scan self fanotify (err e) procfs time scan_id).1 ([] ∷ history)

-- An entry of the cache was read `age` scans before the last one, from a process of that scan with
-- its pid and its start time.
pub record IsReadIn (history : History) (scan_count pid : ℕ) (c : CachedProcess) : Type 0 where
  pub age : ℕ
  pub age_is : c.last_map_scan + age ≡ scan_count
  pub processes : List (Option Process)
  pub scan_of : get_elem? history age ≡ some processes
  pub position : ℕ
  pub process : Process
  pub process_of : get_elem? processes position ≡ some (some process)
  pub pid_of : low_bits 32 process.pid ≡ pid
  pub starttime_of : process.starttime ≡ some c.starttime
  pub maps_of : c.maps ≡ read_maps process

-- The same entry, seen one scan later.
IsReadIn-later :
    (history : History) (now : List (Option Process)) (scan_count pid : ℕ) (c : CachedProcess)
    → IsReadIn history scan_count pid c
    → IsReadIn (now ∷ history) (suc scan_count) pid c
IsReadIn-later history now scan_count pid c r = record {
  age = suc r.age;
  age_is = omega (arith, r.age_is);
  processes = r.processes;
  scan_of = r.scan_of;
  position = r.position;
  process = r.process;
  process_of = r.process_of;
  pid_of = r.pid_of;
  starttime_of = r.starttime_of;
  maps_of = r.maps_of;
}

-- The process is at some position of the list.
abbrev pub IsIn : List (Option Process) → Process → Type 0
IsIn processes process = (position : ℕ) × (get_elem? processes position ≡ some (some process))

IsIn-later :
    (first o : Option Process) (processes : List (Option Process))
    → IfSome (IsIn processes) o
    → IfSome (IsIn (first ∷ processes)) o
IsIn-later first none processes h = tt
IsIn-later first (some process) processes (position, h) = (suc position, h)

each-IsIn : (processes : List (Option Process)) → All (IfSome (IsIn processes)) processes
each-IsIn [] = tt
each-IsIn (none ∷ processes) =
    (tt, All-weaken (λ o. IsIn-later none o processes) processes (each-IsIn processes))
each-IsIn (some process ∷ processes) = (
  (0, refl),
  All-weaken (λ o. IsIn-later (some process) o processes) processes (each-IsIn processes),
)

-- The cache after the processes of a scan, which was its `scan_count`-th.
module _ (self : ProcfsScanner) (time : ℕ) (history : History) (now : List (Option Process)) where
  abbrev IsReadNow : ℕ × CachedProcess → Type 0
  IsReadNow (pid, c) =
      (r : IsReadIn (now ∷ history) self.scan_count pid c) × (r.age < self.map_rescan_interval)

  visit_all-IsReadIn :
      (before : ℕ) (begun : Collected)
      → self.scan_count ≡ suc before
      → 0 < self.map_rescan_interval
      → All (λ (pid, c). IsReadIn history before pid c) self.cache
      → All IsReadNow (visit_all self time now (begun, [])).1
  unfolding scan_process reuse_process
  visit_all-IsReadIn before begun count interval known =
      visit_all-keeps self time (IsIn now) (λ p. All IsReadNow p.1)
        (λ process starttime exe_path (out, seen) (position, at) started h.
          insert-All ℕ_discrete IsReadNow seen (low_bits 32 process.pid) _
            (
              record {
                age = 0;
                age_is = omega arith;
                processes = now;
                scan_of = refl;
                position = position;
                process = process;
                process_of = at;
                pid_of = refl;
                starttime_of = started;
                maps_of =
                    (scan_maps_lem process exe_path time
                      (saw_exe exe_path (low_bits 32 process.pid) out)).0;
              },
              interval,
            )
            h)
        (λ process cached (out, seen) found fresh h.
          let old =
            get-All ℕ_discrete (λ (pid, c). IsReadIn history before pid c) self.cache
              (low_bits 32 process.pid) cached found known in
          let later =
            rw (sym count) at
              (IsReadIn-later history now before (low_bits 32 process.pid) cached old) in
          insert-All ℕ_discrete IsReadNow seen (low_bits 32 process.pid) cached
            (later, omega (arith, later.age_is)) h)
        now (begun, []) (each-IsIn now) tt

-- What is known of a scanner after the scans of its history.
record IsCached (self : ProcfsScanner) (history : History) : Type 0 where
  count_is : self.scan_count ≡ length history
  interval_is : self.map_rescan_interval ≡ default_map_rescan_interval
  read_in : All (λ (pid, c). IsReadIn history (length history) pid c) self.cache

scan-IsReadNow :
    (self : ProcfsScanner) (history : History) (fanotify : Option EventBuffer)
    (processes : List (Option Process)) (procfs : Procfs) (time scan_id : ℕ)
    → length history + 1 < 2 ^ 64
    → IsCached self history
    → All
        (IsReadNow (next_scan self) time history processes)
        (scan self fanotify (ok processes) procfs time scan_id).1.cache
unfolding scan
scan-IsReadNow self history fanotify processes procfs time scan_id short h =
    visit_all-IsReadIn (next_scan self) time history processes (length history)
      (record { events = obs_begin time scan_id ∷ []; warnings = [] })
      (omega (arith, h.count_is, short)) (omega (arith, h.interval_is)) h.read_in

IsScanner-IsCached :
    {self : ProcfsScanner} {history : History}
    → IsScanner self history
    → length history < 2 ^ 64
    → IsCached self history
unfolding scan
IsScanner-IsCached created short = record { count_is = refl; interval_is = refl; read_in = tt }
IsScanner-IsCached (scanned {self} {history} fanotify processes procfs time scan_id r) short =
    let h = IsScanner-IsCached r (omega (arith, short)) in
    let count : (next_scan self).scan_count ≡ suc (length history) =
      omega (arith, h.count_is, short) in
    record {
      count_is = count;
      interval_is = h.interval_is;
      read_in =
          All-weaken
            (λ (pid, c) (read, young).
              subst (λ n. IsReadIn (processes ∷ history) n pid c) count read)
            (scan self fanotify (ok processes) procfs time scan_id).1.cache
            (scan-IsReadNow self history fanotify processes procfs time scan_id
              (omega (arith, short)) h);
    }
IsScanner-IsCached (failed {self} {history} fanotify e procfs time scan_id r) short =
    let h = IsScanner-IsCached r (omega (arith, short)) in
    record {
      count_is = omega (arith, h.count_is, short);
      interval_is = h.interval_is;
      read_in =
          All-weaken (λ (pid, c). IsReadIn-later history [] (length history) pid c) self.cache
            h.read_in;
    }

-- After any scans (fewer than 2 ^ 64), every entry that a scan leaves in the cache was read in one of
-- the last five scans, from a process that had its pid and its start time then, and its maps are
-- those of that reading.
pub scan-IsReadIn :
    (self : ProcfsScanner) (history : History) (fanotify : Option EventBuffer)
    (processes : List (Option Process)) (procfs : Procfs) (time scan_id pid : ℕ) (c : CachedProcess)
    → IsScanner self history
    → length history + 1 < 2 ^ 64
    → get ℕ_discrete (scan self fanotify (ok processes) procfs time scan_id).1.cache pid ≡ some c
    → (r : IsReadIn (processes ∷ history) (suc (length history)) pid c) × (r.age < 5)
scan-IsReadIn self history fanotify processes procfs time scan_id pid c r short found =
    let h = IsScanner-IsCached r (omega (arith, short)) in
    let (read, young) =
      get-All ℕ_discrete (IsReadNow (next_scan self) time history processes)
        (scan self fanotify (ok processes) procfs time scan_id).1.cache pid c found
        (scan-IsReadNow self history fanotify processes procfs time scan_id short h) in
    let count : (next_scan self).scan_count ≡ suc (length history) =
      omega (arith, h.count_is, short) in
    (rw (count) at read, omega (arith, young, h.interval_is))
