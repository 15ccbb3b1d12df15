-- ===== src/Prefetch/Planner/Defs.antt =====
-- `GreedyPrefetchPlanner`.
use preload_ng.Prelude.{
  ℕ, ◌+◌, ◌-◌, ◌*◌, ◌/◌, ◌%◌, ◌^◌, min, ◌&&◌, Option, none, some, List, [], ◌∷◌, ◌++◌, map, ltb,
  ◌==◌, if◌then◌else◌, length, keep,
}
use preload_ng.Prelude.HashMap.{HashMap}
use preload_ng.Prelude.Int.{ℤ, pos, negsuc, ◌+ℤ◌, ◌*ℤ◌, quot, wrap_i64}
use preload_ng.Config.MemoryPolicy.{
  MemoryPolicy, SortStrategy, unsorted, by_path, by_block, by_inode, clamp,
}
use preload_ng.Domain.{MapSegment, MemStat}
use preload_ng.Floats.{Floats, Ordering, less, equal, greater}
use preload_ng.SlotMap.{SlotMap}
use preload_ng.Prefetch.Sort.{Std}
use preload_ng.Stores.MapStore
use preload_ng.Stores.MapStore.{MapStore}

-- `u64::MAX`, where the saturating operations stop.
abbrev pub u64_max : ℕ
u64_max = 2 ^ 64 - 1

pub record Planner : Type 0 where
  pub sort : SortStrategy
  pub memtotal : ℤ
  pub memavailable : ℤ

unfoldable pub new_planner : SortStrategy → MemoryPolicy → Planner
new_planner sort memory =
    let policy = clamp memory in
    record { sort = sort; memtotal = policy.memtotal; memavailable = policy.memavailable }

-- `budget.max(0) as u64`.
unfoldable pub at_least_zero : ℤ → ℕ
at_least_zero (pos n) = n
at_least_zero (negsuc n) = 0

-- `percent as i64 * kb as i64 / 100`, in wrapping arithmetic.
unfoldable pub percent_of : ℤ → ℕ → ℤ
percent_of percent kb = quot (wrap_i64 (percent *ℤ wrap_i64 (pos kb))) 100

unfoldable pub available_kb : Planner → MemStat → ℕ
available_kb planner mem = at_least_zero (
    wrap_i64
      (percent_of planner.memtotal mem.total +ℤ percent_of planner.memavailable mem.available))

-- `bytes.div_ceil(1024)`.
abbrev pub kb : ℕ → ℕ
kb bytes = (bytes + 1023) / 1024

-- `Ord::cmp` of numbers, and `Ordering::then_with`.
abbrev pub cmp_ℕ : ℕ → ℕ → Ordering
cmp_ℕ a b = if ltb a b then less else if ltb b a then greater else equal

abbrev pub then_with : Ordering → Ordering → Ordering
then_with less next = less
then_with equal next = next
then_with greater next = greater

-- The keys of the three strategies; those of numbers are compared field by field.
pub record BlockKey : Type 0 where
  pub device : ℕ
  pub block : ℕ
  pub offset : ℕ

pub record InodeKey : Type 0 where
  pub device : ℕ
  pub inode : ℕ
  pub offset : ℕ

unfoldable pub cmp_block : BlockKey → BlockKey → Ordering
cmp_block a b =
    then_with (cmp_ℕ a.device b.device)
      (then_with (cmp_ℕ a.block b.block) (cmp_ℕ a.offset b.offset))

unfoldable pub cmp_inode : InodeKey → InodeKey → Ordering
cmp_inode a b =
    then_with (cmp_ℕ a.device b.device)
      (then_with (cmp_ℕ a.inode b.inode) (cmp_ℕ a.offset b.offset))

unfoldable pub block_key : MapSegment → Option BlockKey
block_key map =
    if (map.device == 0) && (map.inode == 0)
    then none
    else some (record { device = map.device; block = map.offset / 4096; offset = map.offset })

unfoldable pub inode_key : MapSegment → Option InodeKey
inode_key map =
    if (map.device == 0) && (map.inode == 0)
    then none
    else some (record { device = map.device; inode = map.inode; offset = map.offset })

pub record PrefetchPlan : Type 0 where
  pub maps : List ℕ
  pub total_bytes : ℕ
  pub budget_bytes : ℕ

module _ (fl : Floats) where
  pub record SelectedMap : Type 0 where
    pub id : ℕ
    pub score : fl.F16
    pub index : ℕ

  pub record SelectedWithKey (K : Type 0) : Type 0 where
    pub item : SelectedMap
    pub key : Option K

  -- The variables of the selection loop.
  pub record Selection : Type 0 where
    pub budget_kb : ℕ
    pub total_bytes : ℕ
    pub selected : List SelectedMap

  -- The comparison of `sort_by_score_and_key`.
  unfoldable pub cmp_keys :
      {K : Type 0} → (K → K → Ordering) → Option K → Option K → ℕ → ℕ → Ordering
  cmp_keys cmp (some a) (some b) i j = then_with (cmp a b) (cmp_ℕ i j)
  cmp_keys cmp (some a) none i j = less
  cmp_keys cmp none (some b) i j = greater
  cmp_keys cmp none none i j = cmp_ℕ i j

  unfoldable pub cmp_score_and_key :
      {K : Type 0} → (K → K → Ordering) → SelectedWithKey K → SelectedWithKey K → Ordering
  cmp_score_and_key cmp a b =
      then_with (fl.total_cmp b.item.score a.item.score)
        (cmp_keys cmp a.key b.key a.item.index b.item.index)

  module _ {s : SlotMap MapSegment} (maps : MapStore s) where
    -- The body of the selection loop.
    unfoldable pub consider : Selection → ℕ × fl.F16 → Selection
    consider sel (map_id, score) = elim (MapStore.get maps map_id) [
      | none ↦ sel
      | some map ↦ if ltb sel.budget_kb (kb map.length) then sel else record {
        budget_kb = sel.budget_kb - kb map.length;
        total_bytes = min (sel.total_bytes + map.length) u64_max;
        selected =
            sel.selected ++ record { id = map_id; score = score; index = length sel.selected } ∷ [];
      }
    ]

    unfoldable pub select : Selection → List (ℕ × fl.F16) → Selection
    select sel [] = sel
    select sel (item ∷ items) = select (consider sel item) items

    -- The key of a selected map, where its segment has one.
    abbrev pub key_of_selected : {K : Type 0} → (MapSegment → Option K) → SelectedMap → Option K
    key_of_selected key_of item = elim (MapStore.get maps item.id) [
      | none ↦ none
      | some map ↦ key_of map
    ]

    module _ (std : Std) where
      unfoldable pub sort_selected :
          {K : Type 0}
          → (MapSegment → Option K)
          → (K → K → Ordering)
          → List SelectedMap
          → List SelectedMap
      sort_selected {K} key_of cmp selected =
          map (λ entry. entry.item)
            (std.sort_unstable_by (SelectedWithKey K) (cmp_score_and_key cmp)
              (map (λ item. record { item = item; key = key_of_selected key_of item }) selected))

      unfoldable pub arrange : SortStrategy → List SelectedMap → List SelectedMap
      unfolding sort_selected
      arrange unsorted selected = selected
      arrange by_path selected = sort_selected (λ m. some m.path) std.path_cmp selected
      arrange by_block selected = sort_selected block_key cmp_block selected
      arrange by_inode selected = sort_selected inode_key cmp_inode selected

      -- The maps with a positive score, the highest score first.
      unfoldable pub candidates : HashMap ℕ fl.F16 → List (ℕ × fl.F16)
      candidates map_scores =
          std.sort_unstable_by (ℕ × fl.F16) (λ a b. fl.total_cmp b.1 a.1)
            (keep (λ e. fl.is_positive e.1) map_scores)

      unfoldable pub plan : Planner → HashMap ℕ fl.F16 → MemStat → PrefetchPlan
      plan planner map_scores mem =
          let start : Selection = record {
            budget_kb = available_kb planner mem;
            total_bytes = 0;
            selected = [];
          } in
          let sel = select start (candidates map_scores) in
          record {
            maps = map (λ item. item.id) (arrange planner.sort sel.selected);
            total_bytes = sel.total_bytes;
            budget_bytes = available_kb planner mem * 1024 % 2 ^ 64;
          }
