-- ===== src/Prefetch/Planner/Budget.antt =====
-- What `plan` returns: within the budget, without repetition, and with nothing left out that fits.
use preload_ng.Prelude.{
  ℕ, ◌+◌, ◌*◌, ◌≤◌, min, ◌≡◌, refl, ◌∙◌, subst, ◌≢◌, true, Option, none, List, [], ◌∷◌, arith,
  ℕ_discrete,
}
use preload_ng.Prelude.HashMap.{HashMap, member, Distinct}
use preload_ng.Prelude.Members.{sum, sum-Permᴰ, NoRepeat, NoRepeat-Permᴰ, member-Permᴰ}
use preload_ng.Domain.{MapSegment, MemStat}
use preload_ng.SlotMap.{SlotMap}
use preload_ng.Stores.MapStore
use preload_ng.Prefetch.Planner.Perm.{map-Permᴰ, Permᴰ-refl, Permᴰ-symm, map-map, map-id}
use preload_ng.Prefetch.Planner.Candidates.{is_scored, candidates-NoRepeat, member-candidates}
use preload_ng.Prefetch.Planner.Selection.{
  bytes_of, kb_of, bytes-le-kb, ids, IsAccounted, select-IsAccounted, select-maximal, select-subset,
  select-known, select-NoRepeat,
}
use preload_ng.Prefetch.Planner.Defs.{
  u64_max, SelectedMap, SelectedWithKey, Selection, select, Planner, PrefetchPlan, available_kb,
  arrange, candidates, plan, sort_selected, cmp_score_and_key,
}
use mathlib.Core.List.{Permᴰ}
use preload_ng.Config.MemoryPolicy.{SortStrategy, unsorted, by_path, by_block, by_inode}
use preload_ng.Floats.{Floats, Ordering}
use preload_ng.Stores.MapStore.{MapStore}
use preload_ng.Prefetch.Sort.{Std, SortLaws}

module _ (fl : Floats) {s : SlotMap MapSegment} (maps : MapStore s) {std : Std}
    (laws : SortLaws std) where
  sort_selected-perm :
      {K : Type 0} (key_of : MapSegment → Option K) (cmp : K → K → Ordering)
      (selected : List (SelectedMap fl))
      → Permᴰ (sort_selected fl maps std key_of cmp selected) selected
  unfolding sort_selected
  sort_selected-perm {K} key_of cmp selected =
      subst (Permᴰ _) (map-map (λ e. e.item) _ selected ∙ map-id selected) (
        map-Permᴰ (λ e. e.item)
          (laws.sort-perm (SelectedWithKey fl K) (cmp_score_and_key fl cmp) _))

  -- Whatever the strategy, the plan holds exactly what was selected.
  arrange-perm :
      (strategy : SortStrategy) (selected : List (SelectedMap fl))
      → Permᴰ (arrange fl maps std strategy selected) selected
  unfolding arrange
  arrange-perm unsorted selected = Permᴰ-refl selected
  arrange-perm by_path selected = sort_selected-perm _ _ selected
  arrange-perm by_block selected = sort_selected-perm _ _ selected
  arrange-perm by_inode selected = sort_selected-perm _ _ selected

  sum-bytes-le : (xs : List ℕ) → sum (bytes_of fl maps) xs ≤ sum (kb_of fl maps) xs * 1024
  sum-bytes-le [] = omega arith
  sum-bytes-le (x ∷ xs) = omega (arith, bytes-le-kb fl maps x, sum-bytes-le xs)

  module _ (planner : Planner) (map_scores : HashMap ℕ fl.F16) (mem : MemStat) where
    abbrev the_plan : PrefetchPlan
    the_plan = plan fl maps std planner map_scores mem

    abbrev start : Selection fl
    start = record { budget_kb = available_kb planner mem; total_bytes = 0; selected = [] }

    abbrev end : Selection fl
    end = select fl maps start (candidates fl maps std map_scores)

    plan-perm : Permᴰ the_plan.maps (ids fl maps end)
    unfolding plan
    plan-perm = map-Permᴰ (λ item. item.id) (arrange-perm planner.sort end.selected)

    end-IsAccounted : IsAccounted fl maps (available_kb planner mem) end
    end-IsAccounted =
        select-IsAccounted fl maps (available_kb planner mem) start
          (candidates fl maps std map_scores)
          (record { spent = omega arith; counted = omega arith })

    -- The maps of the plan fit, in whole kilobytes each, into the available memory; `total_bytes` is
    -- their total size, saturated at `u64::MAX`, and is at most the available memory in bytes.
    pub plan-le_budget :
        (sum (kb_of fl maps) the_plan.maps ≤ available_kb planner mem)
        × (the_plan.total_bytes ≡ min (sum (bytes_of fl maps) the_plan.maps) u64_max)
        × (the_plan.total_bytes ≤ available_kb planner mem * 1024)
    unfolding plan
    plan-le_budget =
        let a = end-IsAccounted in
        let kbs = sum-Permᴰ (kb_of fl maps) plan-perm in
        let bytes = sum-Permᴰ (bytes_of fl maps) plan-perm in
        (
          omega (arith, a.spent, kbs),
          omega (arith, a.counted, bytes),
          omega (arith, a.spent, a.counted, sum-bytes-le (ids fl maps end)),
        )

    module _ (distinct : Distinct ℕ_discrete map_scores) where
      -- The plan holds no map twice.
      pub plan-NoRepeat : NoRepeat ℕ_discrete the_plan.maps
      unfolding member
      plan-NoRepeat = NoRepeat-Permᴰ ℕ_discrete (Permᴰ-symm plan-perm) (
          select-NoRepeat fl maps start (candidates fl maps std map_scores) tt
            (candidates-NoRepeat fl maps laws map_scores distinct) (λ id m. refl))

      -- The plan holds only maps with a positive score that the store knows.
      pub plan-scored :
          (id : ℕ)
          → member ℕ_discrete the_plan.maps id ≡ true
          → (is_scored fl map_scores id ≡ true) × (MapStore.get maps id ≢ none)
      unfolding member
      plan-scored id h = (
        ground (
          arith,
          member-Permᴰ ℕ_discrete id plan-perm,
          select-subset fl maps start (candidates fl maps std map_scores) id,
          member-candidates fl maps laws map_scores distinct id,
        ),
        select-known fl maps start (candidates fl maps std map_scores) id (λ m. absurd (cc))
            (ground (arith, member-Permᴰ ℕ_discrete id plan-perm)),
      )

      -- Every known map with a positive score that would still fit into what the plan leaves of the
      -- available memory is in the plan.
      pub plan-maximal :
          (id : ℕ)
          → is_scored fl map_scores id ≡ true
          → MapStore.get maps id ≢ none
          → sum (kb_of fl maps) the_plan.maps + kb_of fl maps id ≤ available_kb planner mem
          → member ℕ_discrete the_plan.maps id ≡ true
      unfolding member
      plan-maximal id scored known fits = ground (
        arith,
        member-Permᴰ ℕ_discrete id plan-perm,
        end-IsAccounted.spent,
        sum-Permᴰ (kb_of fl maps) plan-perm,
        select-maximal fl maps start (candidates fl maps std map_scores) id,
        member-candidates fl maps laws map_scores distinct id,
      )
