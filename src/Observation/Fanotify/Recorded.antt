-- ===== src/Observation/Fanotify/Recorded.antt =====
-- What the buffer of the watcher holds at any time, and so what a drain reports.
use preload_ng.Prelude.{
  ℕ, ◌<◌, ◌≡◌, refl, subst, inl, inr, ite, Bool, true, false, ◌||◌, not, none, some, List, [], ◌∷◌,
  ◌++◌, map, arith, ◌==◌, if◌then◌else◌, Bool-cases, Option-cases, All, any, All-append, All-weaken,
  map-All,
}
use preload_ng.Domain.{FilePath, FilePath-discrete, to_str}
use preload_ng.Prelude.HashMap.{
  HashMap, get, contains_key, or_insert-All, or_insert-contains, or_insert-contains_kept,
}
use preload_ng.Prelude.Int.{ℤ}
use preload_ng.Prelude.Options.{IfSome, bind-IfSome, guard-passed}
use preload_ng.Observation.Event.{ObservationEvent, exe_seen, map_seen, Observation}
use preload_ng.Observation.Fanotify.{
  FileMeta, Opening, Opening-discrete, EventBuffer, empty_buffer, Files, FanotifyEvent, Opened,
  is_skipped, Metadata, same_pid, not_positive_pid, file_meta_of, opened_of, record_opened,
  exe_event, map_event, drain,
}
use preload_ng.Observation.Fanotify.Relation.{
  WatcherState, handle_event, StepTo, stops, waits, fails, reads, handles, finishes, drops,
  IsReachable, start, step, drained,
}

-- The file has a text path outside the skipped directories, and it is not empty.
pub record IsWatched (opening : Opening) (fm : FileMeta) : Type 0 where
  pub path_str : List ℕ
  pub path-to_str : to_str opening.1 ≡ some path_str
  pub not_skipped : is_skipped path_str ≡ false
  pub not_empty : 0 < fm.size

file_meta_of-positive : (meta : Metadata) → IfSome (λ fm. 0 < fm.size) (file_meta_of meta)
unfolding file_meta_of
file_meta_of-positive meta = elim (Bool-cases (not meta.is_file || (meta.len == 0))) [
  | inl bad ↦ rw bad tt
  | inr good ↦ rw good (ground arith)
]

opened_of-IsWatched :
    (files : Files) (self_pid : ℤ) (event : FanotifyEvent)
    → IfSome (λ o. IsWatched o.opening o.file_meta) (opened_of files self_pid event)
unfolding opened_of
opened_of-IsWatched files self_pid event =
    let Q : Opened → Type 0 = λ o. IsWatched o.opening o.file_meta in
    bind-IfSome Q event.fd _ (λ fd _.
      bind-IfSome Q
        (if same_pid event.pid self_pid || not_positive_pid event.pid then none else some tt) _
        (λ _ _. bind-IfSome Q (files.fd_link fd) _ (λ file_path _.
          bind-IfSome Q (to_str file_path) _ (λ path_str text.
            bind-IfSome Q (if is_skipped path_str then none else some tt) _ (λ u passed.
              bind-IfSome Q (files.metadata file_path) _ (λ meta _.
                bind-IfSome Q (file_meta_of meta) _ (λ fm kept.
                  bind-IfSome Q (files.exe_link event.pid) _ (λ exe_path _. record {
                    path_str = path_str;
                    path-to_str = text;
                    not_skipped = guard-passed (is_skipped path_str) u passed;
                    not_empty = subst (IfSome (λ m. 0 < m.size)) kept (file_meta_of-positive meta);
                  }))))))))

-- Every file that is kept is to be watched, and the exe that opened it is kept too.
abbrev pub IsRecorded : EventBuffer → Type 0
IsRecorded buf =
    All
      (λ (opening, fm).
        IsWatched opening fm × (contains_key FilePath-discrete buf.exes opening.0 ≡ true))
      buf.maps

record_opened-IsRecorded :
    (buf : EventBuffer) (o : Opened)
    → IsWatched o.opening o.file_meta
    → IsRecorded buf
    → IsRecorded (record_opened buf o)
unfolding record_opened
record_opened-IsRecorded buf o w h =
    or_insert-All Opening-discrete
      (λ (opening, fm).
        IsWatched opening fm
        × (contains_key FilePath-discrete (record_opened buf o).exes opening.0 ≡ true))
      buf.maps o.opening o.file_meta
      (w, or_insert-contains FilePath-discrete buf.exes o.opening.0 o.pid)
      (All-weaken
        (λ (opening, fm) (watched, known). (
          watched,
          or_insert-contains_kept FilePath-discrete buf.exes o.opening.0 o.pid opening.0 known,
        ))
        buf.maps h)

handle_event-IsRecorded :
    (files : Files) (self_pid : ℤ) (event : FanotifyEvent) (buf : EventBuffer)
    → IsRecorded buf
    → IsRecorded (handle_event files self_pid event buf)
unfolding handle_event
handle_event-IsRecorded files self_pid event buf h =
    elim (Option-cases (opened_of files self_pid event)) [
      | inl nothing ↦ rw (handle_event, nothing) h
      | inr (o, found) ↦
          rw (handle_event, found)
            (record_opened-IsRecorded buf o
              (subst (IfSome (λ p. IsWatched p.opening p.file_meta)) found
                (opened_of-IsWatched files self_pid event))
              h)
    ]

StepTo-IsRecorded :
    {self_pid : ℤ} {s s' : WatcherState}
    → StepTo self_pid s s'
    → IsRecorded s.buffer
    → IsRecorded s'.buffer
StepTo-IsRecorded (stops _ _) h = h
StepTo-IsRecorded (waits _ _) h = h
StepTo-IsRecorded (fails _ _) h = h
StepTo-IsRecorded (reads _ _ _) h = h
StepTo-IsRecorded {self_pid} {s} (handles files event events _) h =
    handle_event-IsRecorded files self_pid event s.buffer h
StepTo-IsRecorded (finishes _) h = h
StepTo-IsRecorded drops h = h

pub reachable-IsRecorded :
    {self_pid : ℤ} {s : WatcherState} → IsReachable self_pid s → IsRecorded s.buffer
unfolding drain
reachable-IsRecorded start = tt
reachable-IsRecorded (step r one) = StepTo-IsRecorded one (reachable-IsRecorded r)
reachable-IsRecorded (drained time r) = tt

abbrev pub is_exe_seen : FilePath → ObservationEvent → Bool
is_exe_seen path (exe_seen seen _) = ite (FilePath-discrete seen path) true false
is_exe_seen path _ = false

-- An event that a drain may report beside the others that it reports.
abbrev pub IsReport : ℕ → Observation → ObservationEvent → Type 0
IsReport time events (exe_seen path pid) = Unit
IsReport time events (map_seen exe_path segment) =
    IsWatched (exe_path, segment.path)
      (record { size = segment.length; device = segment.device; inode = segment.inode })
    × (segment.offset ≡ 0)
    × (segment.update_time ≡ time)
    × (any (is_exe_seen exe_path) events ≡ true)
IsReport time events _ = ⊥

pub any-is_exe_seen :
    (exes : HashMap FilePath ℕ) (rest : Observation) (path : FilePath)
    → contains_key FilePath-discrete exes path ≡ true
    → any (is_exe_seen path) (map exe_event exes ++ rest) ≡ true
unfolding get
any-is_exe_seen [] rest path h = cc
any-is_exe_seen ((seen, pid) ∷ exes) rest path h = ground (arith, any-is_exe_seen exes rest path)

All-tt : {A : Type 0} (xs : List A) → All {0, 0} (λ _. Unit {0}) xs
All-tt [] = tt
All-tt (x ∷ xs) = (tt, All-tt xs)

-- Whatever the reader and the scans did before, all that a drain reports are exes and files: each
-- file is not empty, its path is text outside the skipped directories, it is a segment from 0 with
-- the time of the drain, and the exe that opened it is reported by the same drain; the buffer is
-- then empty.
pub drain-IsReport :
    (self_pid : ℤ) (s : WatcherState) (time : ℕ)
    → IsReachable self_pid s
    → All (IsReport time (drain s.buffer time).0) (drain s.buffer time).0
      × ((drain s.buffer time).1 ≡ empty_buffer)
unfolding drain
drain-IsReport self_pid s time r = (
  All-append _ (map exe_event s.buffer.exes) (map (map_event time) s.buffer.maps)
      (map-All _ exe_event s.buffer.exes (All-tt s.buffer.exes))
      (map-All _ (map_event time) s.buffer.maps (
        All-weaken
          (λ (opening, fm) (watched, known). (
            watched,
            refl,
            refl,
            any-is_exe_seen s.buffer.exes (map (map_event time) s.buffer.maps) opening.0 known,
          ))
          s.buffer.maps (reachable-IsRecorded r))),
  refl,
)
