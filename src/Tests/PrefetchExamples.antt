-- ===== src/Tests/PrefetchExamples.antt =====
-- The theorem about the concurrent prefetch, at a small plan.
use preload_ng.Prelude.{◌+◌, ◌-◌, ◌/◌, max, ◌≡◌, true, none, some, [], ◌∷◌, length}
use preload_ng.Prefetch.Planner.{PrefetchPlan}
use preload_ng.Prefetch.Concurrent.{System, read_range, tasks_of, execute_concurrent}
use preload_ng.Prefetch.Concurrent.Rounds
use preload_ng.Tests.Samples.{one_map_of_exe}

-- Nothing is cached, every file opens, and reads give all that was asked for.
abbrev system : System
system = record {
  kernel = λ path. record { page_size = 4096; mincore = λ offset length. none };
  opens = λ path. true;
  seeks = λ path offset. true;
  read = λ path pos asked. some asked;
  readahead = λ path off count. true;
  mmap = λ path offset length. true;
  madvise = λ path offset length. true;
  joins = λ task. true;
}

abbrev plan : PrefetchPlan
plan = record { maps = 0 ∷ 0 ∷ 0 ∷ []; total_bytes = 6144; budget_bytes = 8192 }

execute_concurrent-counts_example :
    ((execute_concurrent
          (λ round task tasks. task)
          system
          read_range
          plan
          one_map_of_exe
          2).num_maps
        + length
            (execute_concurrent
              (λ round task tasks. task)
              system
              read_range
              plan
              one_map_of_exe
              2).failures
      ≡ (length (tasks_of one_map_of_exe plan.maps) + max 2 1 - 1) / max 2 1)
    × ((execute_concurrent
          (λ round task tasks. task)
          system
          read_range
          plan
          one_map_of_exe
          2).total_bytes
        ≡ 6144)
execute_concurrent-counts_example =
    Rounds.execute_concurrent-counts (λ round task tasks. task) system read_range plan
      one_map_of_exe 2
