-- ===== src/Observation/Fanotify/UntilDrain.antt =====
-- A file that the reader of crates/orchestrator/src/observation/fanotify_watcher.rs recorded stays in
-- the buffer until a drain reports it.
use preload_ng.Prelude.{
  ℕ, ◌≡◌, inl, inr, ite, Bool, true, false, some, List, [], ◌∷◌, map, arith, Option-cases, any,
  any-append_right,
}
use preload_ng.Domain.{FilePath-discrete}
use preload_ng.Prelude.HashMap.{
  HashMap, get, contains_key, or_insert-contains, or_insert-contains_kept,
}
use preload_ng.Prelude.Int.{ℤ}
use preload_ng.Observation.Event.{ObservationEvent, map_seen}
use preload_ng.Observation.Fanotify.{
  FileMeta, Opening, Opening-discrete, EventBuffer, Files, FanotifyEvent, Opened, opened_of,
  record_opened, exe_event, map_event, drain,
}
use preload_ng.Observation.Fanotify.Relation.{
  WatcherState, handling, handle_event, StepTo, stops, waits, fails, reads, handles, finishes,
  drops, StepsTo, done, after,
}
use preload_ng.Observation.Fanotify.Recorded.{is_exe_seen, any-is_exe_seen}

-- The buffer has the file of the opening and its exe.
abbrev pub Has : Opening → EventBuffer → Type 0
Has opening buf =
    (contains_key Opening-discrete buf.maps opening ≡ true)
    × (contains_key FilePath-discrete buf.exes opening.0 ≡ true)

record_opened-Has : (buf : EventBuffer) (o : Opened) → Has o.opening (record_opened buf o)
unfolding record_opened
record_opened-Has buf o = (
  or_insert-contains Opening-discrete buf.maps o.opening o.file_meta,
  or_insert-contains FilePath-discrete buf.exes o.opening.0 o.pid,
)

record_opened-Has_kept :
    (buf : EventBuffer) (o : Opened) (opening : Opening)
    → Has opening buf
    → Has opening (record_opened buf o)
unfolding record_opened
record_opened-Has_kept buf o opening (m, e) = (
  or_insert-contains_kept Opening-discrete buf.maps o.opening o.file_meta opening m,
  or_insert-contains_kept FilePath-discrete buf.exes o.opening.0 o.pid opening.0 e,
)

handle_event-Has_kept :
    (files : Files) (self_pid : ℤ) (event : FanotifyEvent) (buf : EventBuffer) (opening : Opening)
    → Has opening buf
    → Has opening (handle_event files self_pid event buf)
unfolding handle_event
handle_event-Has_kept files self_pid event buf opening h =
    elim (Option-cases (opened_of files self_pid event)) [
      | inl nothing ↦ rw (handle_event, nothing) h
      | inr (o, found) ↦ rw (handle_event, found) (record_opened-Has_kept buf o opening h)
    ]

StepTo-Has :
    {self_pid : ℤ} {s s' : WatcherState} (opening : Opening)
    → StepTo self_pid s s'
    → Has opening s.buffer
    → Has opening s'.buffer
StepTo-Has opening (stops _ _) h = h
StepTo-Has opening (waits _ _) h = h
StepTo-Has opening (fails _ _) h = h
StepTo-Has opening (reads _ _ _) h = h
StepTo-Has {self_pid} {s} opening (handles files event events _) h =
    handle_event-Has_kept files self_pid event s.buffer opening h
StepTo-Has opening (finishes _) h = h
StepTo-Has opening drops h = h

StepsTo-Has :
    {self_pid : ℤ} {s s' : WatcherState} (opening : Opening)
    → StepsTo self_pid s s'
    → Has opening s.buffer
    → Has opening s'.buffer
StepsTo-Has opening done h = h
StepsTo-Has opening (after one more) h = StepsTo-Has opening more (StepTo-Has opening one h)

abbrev pub is_map_seen : Opening → ObservationEvent → Bool
is_map_seen opening (map_seen exe_path segment) =
    ite (Opening-discrete (exe_path, segment.path) opening) true false
is_map_seen opening _ = false

any-is_map_seen :
    (maps : HashMap Opening FileMeta) (time : ℕ) (opening : Opening)
    → contains_key Opening-discrete maps opening ≡ true
    → any (is_map_seen opening) (map (map_event time) maps) ≡ true
unfolding get
any-is_map_seen [] time opening h = cc
any-is_map_seen (((exe, file), fm) ∷ maps) time opening h =
    ground (arith, any-is_map_seen maps time opening)

-- An event for which the reader records a file is not lost: after any steps of the reader and the
-- watcher's drop, the first drain that follows reports that file and the exe that opened it.
pub recorded-until_drain :
    (self_pid : ℤ) (files : Files) (event : FanotifyEvent) (events : List FanotifyEvent)
    (o : Opened) (s s' : WatcherState) (time : ℕ)
    → s.reader ≡ handling (event ∷ events)
    → opened_of files self_pid event ≡ some o
    → StepsTo self_pid
        (record s { buffer = handle_event files self_pid event s.buffer; reader = handling events })
        s'
    → (any (is_map_seen o.opening) (drain s'.buffer time).0 ≡ true)
      × (any (is_exe_seen o.opening.0) (drain s'.buffer time).0 ≡ true)
unfolding drain handle_event
recorded-until_drain self_pid files event events o s s' time _ found steps =
    let (m, e) =
      StepsTo-Has o.opening steps (rw (handle_event, found) (record_opened-Has s.buffer o)) in
    (
      any-append_right (is_map_seen o.opening) (map exe_event s'.buffer.exes)
          (map (map_event time) s'.buffer.maps) (any-is_map_seen s'.buffer.maps time o.opening m),
      any-is_exe_seen s'.buffer.exes (map (map_event time) s'.buffer.maps) o.opening.0 e,
    )
