-- ===== src/Observation/Fanotify.antt =====
-- crates/orchestrator/src/observation/fanotify_watcher.rs: the buffer of opened files, the step of
-- the reader thread for each event of the kernel, and the drain of a scan. `try_new` only asks the
-- kernel for the events and starts the thread.
pub mod Relation
pub mod Recorded
pub mod UntilDrain
use preload_ng.Prelude.{
  ℕ, suc, ◌+◌, ◌-◌, ◌/◌, ◌<◌, ap, Bool, true, false, ◌||◌, not, Option, none, some, List, [], ◌∷◌,
  ◌++◌, map, ℕ_discrete, ◌==◌, if◌then◌else◌, any, keep,
}
use preload_ng.Domain.{FilePath, FilePath-discrete, to_str, new_segment}
use preload_ng.Prelude.Options.{◌>>=◌}
use preload_ng.Prelude.HashMap.{HashMap, or_insert}
use preload_ng.Prelude.Int.{ℤ, pos, negsuc, low_bits}
use preload_ng.Observation.Event.{ObservationEvent, exe_seen, map_seen, Observation}
use preload_ng.Observation.Admission.{starts_with}

-- `/proc/`, `/sys/`, `/dev/`, `/tmp/`, `/run/`, `/var/run/` and `/var/lock/`.
abbrev pub skip_prefixes : List (List ℕ)
skip_prefixes =
    (47 ∷ 112 ∷ 114 ∷ 111 ∷ 99 ∷ 47 ∷ [])
    ∷ (47 ∷ 115 ∷ 121 ∷ 115 ∷ 47 ∷ [])
    ∷ (47 ∷ 100 ∷ 101 ∷ 118 ∷ 47 ∷ [])
    ∷ (47 ∷ 116 ∷ 109 ∷ 112 ∷ 47 ∷ [])
    ∷ (47 ∷ 114 ∷ 117 ∷ 110 ∷ 47 ∷ [])
    ∷ (47 ∷ 118 ∷ 97 ∷ 114 ∷ 47 ∷ 114 ∷ 117 ∷ 110 ∷ 47 ∷ [])
    ∷ (47 ∷ 118 ∷ 97 ∷ 114 ∷ 47 ∷ 108 ∷ 111 ∷ 99 ∷ 107 ∷ 47 ∷ [])
    ∷ []

pub record FileMeta : Type 0 where
  pub size : ℕ
  pub device : ℕ
  pub inode : ℕ

-- The exe that opened a file, and the file.
abbrev pub Opening : Type 0
Opening = FilePath × FilePath

pub Opening-discrete : Discrete Opening
Opening-discrete = hlevel ℕ_discrete

pub record EventBuffer : Type 0 where
  pub maps : HashMap Opening FileMeta
  pub exes : HashMap FilePath ℕ

abbrev pub empty_buffer : EventBuffer
empty_buffer = record { maps = []; exes = [] }

-- `fs::Metadata`: `is_file`, `len`, `st_dev` and `st_ino`.
pub record Metadata : Type 0 where
  pub is_file : Bool
  pub len : ℕ
  pub st_dev : ℕ
  pub st_ino : ℕ

-- The file system while an event is handled: `read_link` of `/proc/self/fd/{fd}` and of
-- `/proc/{pid}/exe`, and `fs::metadata`.
pub record Files : Type 0 where
  pub fd_link : ℤ → Option FilePath
  pub exe_link : ℤ → Option FilePath
  pub metadata : FilePath → Option Metadata

-- An event has no file descriptor when the kernel's queue has overflown.
pub record FanotifyEvent : Type 0 where
  pub fd : Option ℤ
  pub pid : ℤ

-- The file of an event, as the reader records it.
pub record Opened : Type 0 where
  pub opening : Opening
  pub file_meta : FileMeta
  pub pid : ℕ

unfoldable pub is_skipped : List ℕ → Bool
is_skipped path_str = any (λ prefix. starts_with path_str prefix) skip_prefixes

-- `pid <= 0`.
abbrev pub not_positive_pid : ℤ → Bool
not_positive_pid (pos n) = n == 0
not_positive_pid (negsuc n) = true

abbrev pub same_pid : ℤ → ℤ → Bool
same_pid (pos a) (pos b) = a == b
same_pid (negsuc a) (negsuc b) = a == b
same_pid _ _ = false

-- The meta data that the reader keeps: of a regular file that is not empty.
unfoldable pub file_meta_of : Metadata → Option FileMeta
file_meta_of meta =
    if not meta.is_file || (meta.len == 0)
    then none
    else some (record { size = meta.len; device = meta.st_dev; inode = meta.st_ino })

-- The body of `for event in &events`, up to the lock; each `continue` gives none.
unfoldable pub opened_of : Files → ℤ → FanotifyEvent → Option Opened
opened_of files self_pid event = do
  fd ← event.fd
  tt ← (if same_pid event.pid self_pid || not_positive_pid event.pid then none else some tt)
  file_path ← files.fd_link fd
  path_str ← to_str file_path
  tt ← (if is_skipped path_str then none else some tt)
  meta ← files.metadata file_path
  file_meta ← file_meta_of meta
  exe_path ← files.exe_link event.pid
  some (record {
    opening = (exe_path, file_path);
    file_meta = file_meta;
    pid = low_bits 32 event.pid;
  })

-- What the reader does while it holds the lock.
unfoldable pub record_opened : EventBuffer → Opened → EventBuffer
record_opened buf o = record {
  maps = or_insert Opening-discrete buf.maps o.opening o.file_meta;
  exes = or_insert FilePath-discrete buf.exes o.opening.0 o.pid;
}

abbrev pub exe_event : FilePath × ℕ → ObservationEvent
exe_event (path, pid) = exe_seen path pid

abbrev pub map_event : ℕ → Opening × FileMeta → ObservationEvent
map_event time (opening, fm) =
    map_seen opening.0
      (record (new_segment opening.1 0 fm.size time) { device = fm.device; inode = fm.inode })

-- `drain`: the events, and the buffer that it leaves.
unfoldable pub drain : EventBuffer → ℕ → Observation × EventBuffer
drain buf time = (map exe_event buf.exes ++ map (map_event time) buf.maps, empty_buffer)
