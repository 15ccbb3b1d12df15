-- ===== src/Tests/Samples.antt =====
-- Small stores and values that the examples share.
use preload_ng.Prelude.{ℕ, refl, Bool, [], ◌∷◌, ℕ_discrete}
use preload_ng.Prelude.HashMap as Map
use preload_ng.Prelude.HashMap.{HashMap, Distinct}
use preload_ng.Prelude.Int.{pos}
use preload_ng.Config.MemoryPolicy.{by_block}
use preload_ng.Domain.{FilePath, utf8, ExeKey, MapSegment, MemStat, new_segment, neither}
use preload_ng.Prefetch.Planner.{Planner}
use preload_ng.Stores.MapStore
use preload_ng.Stores.MapStore.{MapStore}
use preload_ng.Stores.MapStore.Index as MapIndex
use preload_ng.Stores.ExeStore
use preload_ng.Stores.ExeStore.{ExeStore}
use preload_ng.Stores.ExeStore.Index as ExeIndex
use preload_ng.Stores.ExeMapIndex
use preload_ng.Stores.ExeMapIndex.{ExeMapIndex}
use preload_ng.Stores.ExeMapIndex.Related
use preload_ng.Stores.MarkovGraph
use preload_ng.Stores.MarkovGraph.{MarkovGraph}
use preload_ng.Stores.MarkovGraph.Index as Graph
use preload_ng.Stores.ActiveSet
use preload_ng.Stores.ActiveSet.{ActiveSet}
use preload_ng.Stores.ActiveSet.Window
use preload_ng.Stores.Invariant
use preload_ng.Stores.Model
use preload_ng.Stores.Model.{Stores, empty_stores}
use preload_ng.Stores.Preserve
use preload_ng.Tests.Instances.{env, env_laws, millionths}

-- `/a`, `/b` and `/c`.
abbrev pub path_a : FilePath
path_a = utf8 (47 ∷ 97 ∷ [])

abbrev pub path_b : FilePath
path_b = utf8 (47 ∷ 98 ∷ [])

abbrev pub map_a : MapSegment
map_a = new_segment path_a 0 2048 0

abbrev pub map_b : MapSegment
map_b = new_segment path_b 4096 1024 0

abbrev pub key_a : ExeKey
key_a = record { path = path_a }

abbrev pub key_b : ExeKey
key_b = record { path = path_b }

abbrev pub one_map : MapStore env.map_slots
one_map = (MapStore.ensure_with_flag MapStore.empty map_a).1

pub one_map-IsIndexed : MapIndex.IsIndexed one_map
one_map-IsIndexed =
    MapIndex.ensure_with_flag-IsIndexed env_laws.map_laws MapStore.empty
      (MapIndex.empty-IsIndexed env_laws.map_laws) map_a

abbrev pub one_exe : ExeStore env.exe_slots
one_exe = (ExeStore.ensure ExeStore.empty key_a).1

pub one_exe-IsIndexed : ExeIndex.IsIndexed one_exe
one_exe-IsIndexed =
    ExeIndex.ensure-IsIndexed env_laws.exe_laws ExeStore.empty
      (ExeIndex.empty-IsIndexed env_laws.exe_laws) key_a

abbrev pub one_pair : ExeMapIndex
one_pair = ExeMapIndex.attach ExeMapIndex.empty 1 2

pub one_pair-IsConsistent : Related.IsConsistent one_pair
one_pair-IsConsistent = (Related.attach-related ExeMapIndex.empty 1 2 Related.empty-IsConsistent).0

abbrev pub one_edge : MarkovGraph millionths
one_edge = (MarkovGraph.ensure_edge MarkovGraph.empty 1 2 0 neither).1

pub one_edge-IsValid : Graph.IsValid one_edge
one_edge-IsValid = Graph.ensure_edge-IsValid MarkovGraph.empty 1 2 0 neither Graph.empty-IsValid

abbrev pub two_seen : ActiveSet
two_seen = ActiveSet.update (ActiveSet.update ActiveSet.empty (1 ∷ []) 10) (2 ∷ []) 50

pub two_seen-IsMap : Window.IsMap two_seen
two_seen-IsMap =
    Window.update-IsMap (ActiveSet.update ActiveSet.empty (1 ∷ []) 10) (2 ∷ []) 50
      (Window.update-IsMap ActiveSet.empty (1 ∷ []) 10 tt)

abbrev pub scores : HashMap ℕ ℕ
scores = (0, 900_000) ∷ (7, 0) ∷ []

pub scores-Distinct : Distinct ℕ_discrete scores
unfolding Map.get ℕ_discrete
scores-Distinct = (refl, (refl, tt))

abbrev pub mem : MemStat
mem = record { total = 0; available = 5; free = 5; cached = 0; pagein = pos 0; pageout = pos 0 }

abbrev pub planner : Planner
planner = record { sort = by_block; memtotal = pos 0; memavailable = pos 100 }

-- A store with one exe that has mapped one map.
abbrev with_exe : ℕ × Stores env
with_exe = Model.ensure_exe empty_stores key_a

abbrev with_map : (ℕ × Bool) × Stores env
with_map = Model.ensure_map_with_flag with_exe.1 map_a

abbrev pub one_map_of_exe : Stores env
one_map_of_exe = Model.attach_map with_map.1 with_exe.0 with_map.0.0

pub one_map_of_exe-IsValid : Invariant.IsValid one_map_of_exe
unfolding Model.ensure_exe Model.ensure_map_with_flag
one_map_of_exe-IsValid =
    let empty = Preserve.empty_stores-IsValid env_laws in
    let one = Preserve.ensure_exe-IsValid env_laws empty_stores empty key_a in
    Preserve.attach_map-IsValid env_laws with_map.1
      (Preserve.ensure_map_with_flag-IsValid env_laws with_exe.1 one map_a) with_exe.0 with_map.0.0
      (ExeIndex.get-ensure env_laws.exe_laws ExeStore.empty key_a 0 empty.exes).1
      (MapIndex.get-ensure_with_flag env_laws.map_laws MapStore.empty map_a 0 empty.maps).1
