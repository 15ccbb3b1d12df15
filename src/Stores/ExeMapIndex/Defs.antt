-- ===== src/Stores/ExeMapIndex/Defs.antt =====
-- The index and its operations.
use preload_ng.Prelude.{ℕ, List, [], ◌∷◌, none, some, ℕ_discrete}
use preload_ng.Prelude.HashMap.{HashMap, HashSet, get, insert, remove, add, keys}

pub record ExeMapIndex : Type 0 where
  pub exe_to_maps : HashMap ℕ (HashSet ℕ)
  pub map_to_exes : HashMap ℕ (HashSet ℕ)

abbrev pub empty : ExeMapIndex
empty = record { exe_to_maps = []; map_to_exes = [] }

-- `entry(k).or_default()`: the set that is there, or an empty one.
abbrev pub get_or_default : HashMap ℕ (HashSet ℕ) → ℕ → HashSet ℕ
get_or_default m k = elim (get ℕ_discrete m k) [ none ↦ [] | some s ↦ s ]

-- `entry(k).or_default().insert(x)`.
unfoldable pub add_to : HashMap ℕ (HashSet ℕ) → ℕ → ℕ → HashMap ℕ (HashSet ℕ)
add_to m k x = insert ℕ_discrete m k (add ℕ_discrete (get_or_default m k) x)

-- `if let Some(s) = m.get_mut(k) { s.remove(x); if s.is_empty() { m.remove(k) } }`.
unfoldable pub store_or_drop : HashMap ℕ (HashSet ℕ) → ℕ → HashSet ℕ → HashMap ℕ (HashSet ℕ)
store_or_drop m k [] = remove ℕ_discrete m k
store_or_drop m k (e ∷ s) = insert ℕ_discrete m k (e ∷ s)

unfoldable pub remove_from : HashMap ℕ (HashSet ℕ) → ℕ → ℕ → HashMap ℕ (HashSet ℕ)
unfolding store_or_drop
remove_from m k x = elim (get ℕ_discrete m k) [
  | none ↦ m
  | some s ↦ store_or_drop m k (remove ℕ_discrete s x)
]

-- The loop of `detach_map` and `remove_exe` over the keys of a set.
unfoldable pub remove_from_each : HashMap ℕ (HashSet ℕ) → List ℕ → ℕ → HashMap ℕ (HashSet ℕ)
remove_from_each m [] x = m
remove_from_each m (k ∷ ks) x = remove_from_each (remove_from m k x) ks x

unfoldable pub attach : ExeMapIndex → ℕ → ℕ → ExeMapIndex
attach ix exe_id map_id = record {
  exe_to_maps = add_to ix.exe_to_maps exe_id map_id;
  map_to_exes = add_to ix.map_to_exes map_id exe_id;
}

unfoldable pub maps_for_exe : ExeMapIndex → ℕ → List ℕ
maps_for_exe ix exe_id = keys (get_or_default ix.exe_to_maps exe_id)

unfoldable pub exes_for_map : ExeMapIndex → ℕ → List ℕ
exes_for_map ix map_id = keys (get_or_default ix.map_to_exes map_id)

unfoldable pub detach_map : ExeMapIndex → ℕ → ExeMapIndex
detach_map ix map_id = elim (get ℕ_discrete ix.map_to_exes map_id) [
  | none ↦ ix
  | some exes ↦ record {
    exe_to_maps = remove_from_each ix.exe_to_maps (keys exes) map_id;
    map_to_exes = remove ℕ_discrete ix.map_to_exes map_id;
  }
]

unfoldable pub remove_exe : ExeMapIndex → ℕ → ExeMapIndex
remove_exe ix exe_id = elim (get ℕ_discrete ix.exe_to_maps exe_id) [
  | none ↦ ix
  | some maps ↦ record {
    exe_to_maps = remove ℕ_discrete ix.exe_to_maps exe_id;
    map_to_exes = remove_from_each ix.map_to_exes (keys maps) exe_id;
  }
]
