-- ===== src/Prefetch/Concurrent/Rounds.antt =====
-- How many tasks the loop of `execute_concurrent` reports.
use preload_ng.Prelude.{
  ℕ, zero, suc, ◌+◌, ◌-◌, ◌/◌, ◌≤◌, ◌<◌, max, ◌≡◌, refl, ◌∙◌, inl, inr, Bool, List, [], ◌∷◌, arith,
  ltb, Bool-cases, length, length-append,
}
use native.Mathlib.Nat.{add-div_right, div-eq_of_lt}
use preload_ng.Domain.{FilePath}
use preload_ng.Prefetch.Planner.{PrefetchPlan}
use preload_ng.Prefetch.Report.{PrefetchReport}
use preload_ng.Stores.Model.{Env, Stores}
use preload_ng.Prefetch.Concurrent.{
  empty_report, Task, System, run_task, tasks_of, drop, take, report_task, rounds,
  execute_concurrent,
}

length-drop : {A : Type 0} (n : ℕ) (xs : List A) → length (drop n xs) ≡ length xs - n
unfolding drop
length-drop zero xs = omega arith
length-drop (suc n) [] = omega arith
length-drop (suc n) (x ∷ xs) = omega (arith, length-drop n xs)

-- A report with one task more.
report_task-counts :
    (runs : Task → Bool) (report : PrefetchReport) (task : Task)
    → (report_task runs report task).num_maps + length (report_task runs report task).failures
      ≡ report.num_maps + length report.failures + 1
unfolding report_task
report_task-counts runs report task = elim (Bool-cases (runs task)) [
  | inl fine ↦ rw (fine) (omega arith)
  | inr failed ↦ rw (failed) (omega (arith, length-append report.failures (task.map_key ∷ [])))
]

-- The rounds for a number of tasks: one for every `c` of them, rounded up.
abbrev pub rounds_of : ℕ → ℕ → ℕ
rounds_of n c = (n + c - 1) / c

rounds_of-step : (n c : ℕ) → 0 < c → rounds_of (suc n) c ≡ rounds_of (n - (c - 1)) c + 1
rounds_of-step n c h =
    let whole : suc n + c - 1 ≡ n + c = omega arith in
    let one_more : (n + c) / c ≡ n / c + 1 = add-div_right n h in
    elim (Bool-cases (ltb n (c - 1))) [
      | inl last ↦
          let none_left : n - (c - 1) + c - 1 ≡ c - 1 = ground (arith, last) in
          let small : n / c ≡ 0 = div-eq_of_lt (ground (arith, last)) in
          let less : (c - 1) / c ≡ 0 = div-eq_of_lt (omega (arith, h)) in
          rw (whole, one_more, small, none_left, less) refl
      | inr more ↦
          let left : n - (c - 1) + c - 1 ≡ n = ground (arith, more, h) in
          rw (whole, one_more, left) refl
    ]

module _ (choose : ℕ → Task → List Task → Task) (runs : Task → Bool) (c : ℕ) where
  rounds-counts :
      (fuel round : ℕ) (tasks : List Task) (report : PrefetchReport)
      → 0 < c
      → length tasks ≤ fuel
      → (rounds choose runs c fuel round tasks report).num_maps
          + length (rounds choose runs c fuel round tasks report).failures
        ≡ report.num_maps + length report.failures + rounds_of (length tasks) c
  unfolding rounds
  rounds-counts zero round [] report h enough =
      let none_left : (0 + c - 1) / c ≡ 0 = div-eq_of_lt (omega (arith, h)) in
      rw (none_left) (omega arith)
  rounds-counts zero round (task ∷ tasks) report h enough = absurd (omega (arith, enough))
  rounds-counts (suc fuel) round [] report h enough =
      let none_left : (0 + c - 1) / c ≡ 0 = div-eq_of_lt (omega (arith, h)) in
      rw (none_left) (omega arith)
  rounds-counts (suc fuel) round (task ∷ tasks) report h enough =
      let chosen : Task = choose round task (take (c - 1) tasks) in
      let left = length-drop (c - 1) tasks in
      let step = rounds_of-step (length tasks) c h in
      let rest =
        rounds-counts fuel (round + 1) (drop (c - 1) tasks) (report_task runs report chosen) h
          (omega (arith, left, enough)) in
      rest ∙ rw (report_task-counts runs report chosen, left, step) (omega arith)

-- Of the tasks of a plan `execute_concurrent` reports one, as done or as failed, for every
-- `concurrency` of them, rounded up: with a concurrency of 1 every task, and with a higher one not
-- the others, whichever task of a round is finished first. The bytes are those of the plan.
pub execute_concurrent-counts :
    {env : Env} (choose : ℕ → Task → List Task → Task) (system : System)
    (range_fn : System → FilePath → ℕ → ℕ → Bool) (plan : PrefetchPlan) (st : Stores env)
    (concurrency : ℕ)
    → ((execute_concurrent choose system range_fn plan st concurrency).num_maps
          + length (execute_concurrent choose system range_fn plan st concurrency).failures
        ≡ (length (tasks_of st plan.maps) + max concurrency 1 - 1) / max concurrency 1)
      × ((execute_concurrent choose system range_fn plan st concurrency).total_bytes
          ≡ plan.total_bytes)
unfolding execute_concurrent
execute_concurrent-counts choose system range_fn plan st concurrency =
    let tasks = tasks_of st plan.maps in
    let counted =
      rounds-counts choose (run_task system range_fn) (max concurrency 1) (length tasks) 0 tasks
        empty_report (omega arith) (omega arith) in
    (counted ∙ omega arith, refl)
