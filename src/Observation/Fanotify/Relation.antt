-- ===== src/Observation/Fanotify/Relation.antt =====
-- The reader thread of crates/orchestrator/src/observation/fanotify_watcher.rs beside the scans that
-- drain its buffer: each holds the lock for one event or one drain.
use preload_ng.Prelude.{ℕ, ◌≡◌, Bool, true, false, none, some, List, [], ◌∷◌}
use preload_ng.Prelude.Int.{ℤ}
use preload_ng.Observation.Fanotify.{
  EventBuffer, empty_buffer, Files, FanotifyEvent, opened_of, record_opened, drain,
}

-- Where `reader_loop` stands: at the head of its loop, within the events of one read, or returned.
pub data Reader : Type 0 where
  at_head : Reader
  handling : List FanotifyEvent → Reader
  exited : Reader

pub record WatcherState : Type 0 where
  pub buffer : EventBuffer
  pub stop : Bool
  pub reader : Reader

abbrev pub started : WatcherState
started = record { buffer = empty_buffer; stop = false; reader = at_head }

-- One event: a file that is to be recorded is recorded.
unfoldable pub handle_event : Files → ℤ → FanotifyEvent → EventBuffer → EventBuffer
handle_event files self_pid event buf = elim (opened_of files self_pid event) [
  | none ↦ buf
  | some o ↦ record_opened buf o
]

-- The steps but for the drain. `fails` is an error of `read_events` other than EAGAIN and EINTR,
-- `waits` one of these two, `drops` the `Drop` of the watcher, which only sets the flag.
pub data StepTo (self_pid : ℤ) : WatcherState → WatcherState → Type 0 where
  stops :
      {s : WatcherState}
      → s.stop ≡ true
      → s.reader ≡ at_head
      → StepTo self_pid s (record s { reader = exited })
  waits : {s : WatcherState} → s.stop ≡ false → s.reader ≡ at_head → StepTo self_pid s s
  fails :
      {s : WatcherState}
      → s.stop ≡ false
      → s.reader ≡ at_head
      → StepTo self_pid s (record s { reader = exited })
  reads :
      {s : WatcherState} (events : List FanotifyEvent)
      → s.stop ≡ false
      → s.reader ≡ at_head
      → StepTo self_pid s (record s { reader = handling events })
  handles :
      {s : WatcherState} (files : Files) (event : FanotifyEvent) (events : List FanotifyEvent)
      → s.reader ≡ handling (event ∷ events)
      → StepTo self_pid s (record s {
        buffer = handle_event files self_pid event s.buffer;
        reader = handling events;
      })
  finishes :
      {s : WatcherState}
      → s.reader ≡ handling []
      → StepTo self_pid s (record s { reader = at_head })
  drops : {s : WatcherState} → StepTo self_pid s (record s { stop = true })

-- Any number of steps without a drain.
pub data StepsTo (self_pid : ℤ) : WatcherState → WatcherState → Type 0 where
  done : {s : WatcherState} → StepsTo self_pid s s
  after :
      {s s' s'' : WatcherState}
      → StepTo self_pid s s'
      → StepsTo self_pid s' s''
      → StepsTo self_pid s s''

-- What a watcher can come to, with drains at any times in between.
pub data IsReachable (self_pid : ℤ) : WatcherState → Type 0 where
  start : IsReachable self_pid started
  step :
      {s s' : WatcherState}
      → IsReachable self_pid s
      → StepTo self_pid s s'
      → IsReachable self_pid s'
  drained :
      {s : WatcherState} (time : ℕ)
      → IsReachable self_pid s
      → IsReachable self_pid (record s { buffer = (drain s.buffer time).1 })
