-- ===== src/Prefetch/Concurrent.antt =====
-- crates/orchestrator/src/prefetch/prefetcher.rs: `execute_concurrent` and the prefetchers that it
-- serves. Offsets and lengths are below 2 ^ 63, as in Ranges.
pub mod Rounds
use preload_ng.Prelude.{
  ℕ, zero, suc, ◌+◌, ◌-◌, ◌/◌, ◌^◌, max, ap, Bool, true, false, ◌&&◌, ◌||◌, not, Option, none, some,
  List, [], ◌∷◌, ◌++◌, map, ◌==◌, if◌then◌else◌, length, set,
}
use preload_ng.Domain.{FilePath, MapKey, segment_key}
use preload_ng.Prefetch.Planner.{PrefetchPlan}
use preload_ng.Prefetch.Report.{PrefetchReport}
use preload_ng.Prefetch.Ranges.{Kernel, uncached_ranges, do_readahead}
use preload_ng.Prefetch.ReadLoop.{readahead}
use preload_ng.Stores.MapStore
use preload_ng.Stores.Model.{Env, Stores}

abbrev pub empty_report : PrefetchReport
empty_report = record { num_maps = 0; total_bytes = 0; failures = [] }

-- `NoopPrefetcher::execute`.
abbrev pub noop_execute : PrefetchPlan → {env : Env} → Stores env → PrefetchReport
noop_execute plan stores = empty_report

pub record Task : Type 0 where
  pub map_key : MapKey
  pub path : FilePath
  pub offset : ℕ
  pub length : ℕ

-- What the system does for a path: whether the file opens and can be positioned, the system calls on
-- it, and whether a blocking task ends without a panic.
pub record System : Type 0 where
  pub kernel : FilePath → Kernel
  pub opens : FilePath → Bool
  pub seeks : FilePath → ℕ → Bool
  pub read : FilePath → ℕ → ℕ → Option ℕ
  pub readahead : FilePath → ℕ → ℕ → Bool
  pub mmap : FilePath → ℕ → ℕ → Bool
  pub madvise : FilePath → ℕ → ℕ → Bool
  pub joins : Task → Bool

abbrev pub succeeded : Option ℕ → Bool
succeeded none = false
succeeded (some _) = true

-- A range that is read: of `ReadPrefetcher`, `ReadaheadPrefetcher` and `MadvisePrefetcher`.
unfoldable pub read_range : System → FilePath → ℕ → ℕ → Bool
read_range system path offset length =
    system.opens path
    && ((offset == 0) || system.seeks path offset)
    && succeeded (readahead (system.read path) offset length)

unfoldable pub readahead_range : System → FilePath → ℕ → ℕ → Bool
readahead_range system path offset length =
    system.opens path && (do_readahead (system.readahead path) offset length).1

unfoldable pub madvise_range : System → FilePath → ℕ → ℕ → Bool
madvise_range system path offset length =
    if length == 0
    then true
    else system.opens path && system.mmap path offset length && system.madvise path offset length

-- The ranges of a task, up to the first that fails.
unfoldable pub all_ranges : (ℕ → ℕ → Bool) → List (ℕ × ℕ) → Bool
all_ranges readahead_fn [] = true
all_ranges readahead_fn ((offset, length) ∷ ranges) =
    let rest = all_ranges readahead_fn ranges in readahead_fn offset length && rest

-- The future of a task: whether it succeeds.
unfoldable pub run_task : System → (System → FilePath → ℕ → ℕ → Bool) → Task → Bool
run_task system range_fn task =
    system.joins task
    && all_ranges (range_fn system task.path)
        (uncached_ranges (system.kernel task.path) task.offset task.length)

unfoldable pub tasks_of : {env : Env} → Stores env → List ℕ → List Task
tasks_of st [] = []
tasks_of st (map_id ∷ ids) = elim (MapStore.get st.maps map_id) [
  | none ↦ tasks_of st ids
  | some segment ↦
      record {
        map_key = segment_key segment;
        path = segment.path;
        offset = segment.offset;
        length = segment.length;
      }
      ∷ tasks_of st ids
]

unfoldable pub take : {A : Type 0} → ℕ → List A → List A
take zero xs = []
take (suc n) [] = []
take (suc n) (x ∷ xs) = x ∷ take n xs

unfoldable pub drop : {A : Type 0} → ℕ → List A → List A
drop zero xs = xs
drop (suc n) [] = []
drop (suc n) (x ∷ xs) = drop n xs

unfoldable pub report_task : (Task → Bool) → PrefetchReport → Task → PrefetchReport
report_task runs report task =
    if runs task
    then record report { num_maps = report.num_maps + 1 }
    else record report { failures = report.failures ++ task.map_key ∷ [] }

-- The loop over `stream.by_ref().buffer_unordered(concurrency).next()`, on fuel. Each round has a new
-- buffer: it takes `concurrency` tasks from the stream, gives the one that `choose` says to be
-- finished first, and is dropped with the others.
unfoldable pub rounds :
    (choose : ℕ → Task → List Task → Task) (runs : Task → Bool) (concurrency : ℕ)
    → ℕ
    → ℕ
    → List Task
    → PrefetchReport
    → PrefetchReport
rounds choose runs concurrency zero round tasks report = report
rounds choose runs concurrency (suc fuel) round [] report = report
rounds choose runs concurrency (suc fuel) round (task ∷ tasks) report =
    rounds choose runs concurrency fuel (round + 1) (drop (concurrency - 1) tasks)
      (report_task runs report (choose round task (take (concurrency - 1) tasks)))

-- Each round takes at least a task, so a round for each task is enough.
unfoldable pub execute_concurrent :
    {env : Env}
    → (choose : ℕ → Task → List Task → Task) → System
    → (System → FilePath → ℕ → ℕ → Bool)
    → PrefetchPlan
    → Stores env
    → ℕ
    → PrefetchReport
execute_concurrent choose system range_fn plan st concurrency =
    let tasks = tasks_of st plan.maps in
    let report =
      rounds choose (run_task system range_fn) (max concurrency 1) (length tasks) 0 tasks
        empty_report in
    record report { total_bytes = plan.total_bytes }

-- `ReadaheadPrefetcher::probe`: `/dev/null` does not open, or readahead(2) fails with an error, or
-- not. `enosys` is ENOSYS.
abbrev pub readahead_probe : (enosys : ℕ) → (opened : Bool) → (readahead_error : Option ℕ) → Bool
readahead_probe enosys false _ = false
readahead_probe enosys true none = true
readahead_probe enosys true (some errno) = not (errno == enosys)

-- `MadvisePrefetcher::probe`.
abbrev pub madvise_probe : Bool
madvise_probe = true
