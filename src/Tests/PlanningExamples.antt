-- ===== src/Tests/PlanningExamples.antt =====
-- The theorems about the planner, for one known map with a positive score.
use preload_ng.Prelude.{
  ◌*◌, ◌≤◌, min, ◌≡◌, refl, ap, ◌≢◌, true, none, [], ◌∷◌, arith, ℕ_discrete, keep,
}
use preload_ng.Prelude.HashMap.{member}
use preload_ng.Prelude.Members.{sum, NoRepeat}
use preload_ng.Prelude.Int.{◌+ℤ◌, ◌*ℤ◌}
use preload_ng.Prefetch.Planner.{available_kb, plan, u64_max, select, candidates, consider, arrange}
use preload_ng.Prefetch.Planner.Budget
use preload_ng.Prelude.HashMap as Map
use preload_ng.Prelude.Int.{quot, wrap_i64}
use preload_ng.Prefetch.Planner.{percent_of, at_least_zero}
use preload_ng.Tests.Instances.{slots}
use preload_ng.Prefetch.Planner.Candidates.{is_scored}
use preload_ng.Prefetch.Planner.Selection.{kb_of, bytes_of}
use preload_ng.Stores.MapStore
use preload_ng.Tests.Instances.{millionths, std, std_laws}
use preload_ng.Tests.Samples.{one_map, scores, scores-Distinct, mem, planner}

plan-le_budget_example :
    (sum (kb_of millionths one_map) (plan millionths one_map std planner scores mem).maps
      ≤ available_kb planner mem)
    × ((plan millionths one_map std planner scores mem).total_bytes
        ≡ min
            (sum
              (bytes_of millionths one_map)
              (plan millionths one_map std planner scores mem).maps)
            u64_max)
    × ((plan millionths one_map std planner scores mem).total_bytes
        ≤ available_kb planner mem * 1024)
plan-le_budget_example = Budget.plan-le_budget millionths one_map std_laws planner scores mem

plan-NoRepeat_example : NoRepeat ℕ_discrete (plan millionths one_map std planner scores mem).maps
plan-NoRepeat_example =
    Budget.plan-NoRepeat millionths one_map std_laws planner scores mem scores-Distinct

-- What the planner does here: the one map is chosen.
program : Unit {0}
unfolding plan candidates select consider arrange available_kb MapStore.get std slots kb_of member
    keep MapStore.ensure_with_flag ℕ_discrete Map.get Map.insert percent_of at_least_zero wrap_i64
    quot ◌+ℤ◌ ◌*ℤ◌
program = tt

plan_run : (plan millionths one_map std planner scores mem).maps ≡ 0 ∷ []
unfolding program
plan_run = refl

plan-scored_example : (is_scored millionths scores 0 ≡ true) × (MapStore.get one_map 0 ≢ none)
unfolding member ℕ_discrete
plan-scored_example =
    Budget.plan-scored millionths one_map std_laws planner scores mem scores-Distinct 0
      (ap (λ l. member ℕ_discrete l 0) plan_run)

plan-maximal_example :
    member ℕ_discrete (plan millionths one_map std planner scores mem).maps 0 ≡ true
unfolding program
plan-maximal_example =
    Budget.plan-maximal millionths one_map std_laws planner scores mem scores-Distinct 0 refl
      (λ e. cc) (omega arith)
