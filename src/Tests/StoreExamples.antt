-- ===== src/Tests/StoreExamples.antt =====
-- The theorems about the stores, at small stores.
use preload_ng.Prelude.{
  ℕ, min, max, ◌≡◌, refl, ◌↔◌, ◌⊎◌, ite, true, false, not, none, some, [], ◌∷◌, ℕ_discrete,
  if◌then◌else◌, get_elem?, ◌≢◌, arith,
}
use preload_ng.Prelude.HashMap as Map
use preload_ng.Prelude.HashMap.{member, contains, retained, HashSet}
use preload_ng.Domain.{MapKey, ExeKey-discrete, MapKey-discrete, segment_key, new_exe, neither}
use preload_ng.Stores.EdgeKey.{new_edge_key, EdgeKey, EdgeKey-discrete}
use preload_ng.Stores.EdgeKey
use preload_ng.Stores.MapStore
use preload_ng.Stores.MapStore.Index as MapIndex
use preload_ng.Stores.ExeStore
use preload_ng.Stores.ExeStore.Index as ExeIndex
use preload_ng.Stores.ExeMapIndex
use preload_ng.Stores.ExeMapIndex.Related
use preload_ng.Stores.ExeMapIndex.Related.{related, IsConsistent}
use preload_ng.Stores.MarkovGraph
use preload_ng.Stores.MarkovGraph.{MarkovGraph, EdgeRef}
use preload_ng.Stores.MarkovGraph.Index as Graph
use preload_ng.Stores.MarkovGraph.Prune
use preload_ng.Stores.MarkovGraph.Read
use preload_ng.Stores.MarkovGraph.SelfEdges
use preload_ng.Stores.ActiveSet
use preload_ng.Stores.ActiveSet.Window
use preload_ng.Stores.ActiveSet.Window.{seen}
use preload_ng.Stores.Invariant
use preload_ng.Stores.Model
use preload_ng.Stores.Model.{Stores, empty_stores}
use preload_ng.Tests.Instances.{env_laws, millionths}
use preload_ng.Tests.Samples.{
  map_a, map_b, key_a, key_b, one_map, one_map-IsIndexed, one_exe, one_exe-IsIndexed, one_pair,
  one_pair-IsConsistent, one_map_of_exe, one_map_of_exe-IsValid, one_edge, one_edge-IsValid,
  two_seen, two_seen-IsMap,
}

new_edge_key-ends_example :
    ((new_edge_key 5 3 ≡ new_edge_key 3 5)
      ↔ ((◌≡◌ {A = ℕ} 5 3 × ◌≡◌ {A = ℕ} 3 5) ⊎ (◌≡◌ {A = ℕ} 5 5 × ◌≡◌ {A = ℕ} 3 3)))
    × ((new_edge_key 5 3).a ≡ min 5 3)
    × ((new_edge_key 5 3).b ≡ max 5 3)
new_edge_key-ends_example = EdgeKey.new_edge_key-ends 5 3 3 5

segment_at-ensure_with_flag_example :
    MapIndex.segment_at (MapStore.ensure_with_flag one_map map_b).1 (segment_key map_a)
    ≡ ite
        (MapKey-discrete (segment_key map_b) (segment_key map_a))
        (elim (MapIndex.segment_at one_map (segment_key map_a)) [
          | none ↦ some map_b
          | some old ↦ some old
        ])
        (MapIndex.segment_at one_map (segment_key map_a))
segment_at-ensure_with_flag_example =
    MapIndex.segment_at-ensure_with_flag env_laws.map_laws one_map one_map-IsIndexed map_b
      (segment_key map_a)

ensure_with_flag-id_by_key_example :
    (MapStore.id_by_key (MapStore.ensure_with_flag one_map map_b).1 (segment_key map_b)
      ≡ some (MapStore.ensure_with_flag one_map map_b).0.0)
    × ((MapStore.ensure_with_flag one_map map_b).0.1
        ≡ elim (MapIndex.segment_at one_map (segment_key map_b)) [ none ↦ true | some _ ↦ false ])
ensure_with_flag-id_by_key_example =
    MapIndex.ensure_with_flag-id_by_key env_laws.map_laws one_map one_map-IsIndexed map_b

exe_at-ensure_example :
    (ExeIndex.exe_at (ExeStore.ensure one_exe key_b).1 key_a
      ≡ ite
          (ExeKey-discrete key_b key_a)
          (elim (ExeIndex.exe_at one_exe key_a) [
            | none ↦ some (new_exe key_b)
            | some old ↦ some old
          ])
          (ExeIndex.exe_at one_exe key_a))
    × (ExeStore.id_by_key (ExeStore.ensure one_exe key_b).1 key_b
        ≡ some (ExeStore.ensure one_exe key_b).0)
exe_at-ensure_example =
    ExeIndex.exe_at-ensure env_laws.exe_laws one_exe one_exe-IsIndexed key_b key_a

attach-related_example :
    IsConsistent (ExeMapIndex.attach one_pair 1 3)
    × ((e m : ℕ)
        → related (ExeMapIndex.attach one_pair 1 3) e m
          ≡ ite
              (ℕ_discrete 1 e)
              (ite (ℕ_discrete 3 m) true (related one_pair e m))
              (related one_pair e m))
attach-related_example = Related.attach-related one_pair 1 3 one_pair-IsConsistent

detach_map-related_example :
    IsConsistent (ExeMapIndex.detach_map one_pair 2)
    × ((e m : ℕ)
        → related (ExeMapIndex.detach_map one_pair 2) e m
          ≡ ite (ℕ_discrete 2 m) false (related one_pair e m))
detach_map-related_example = Related.detach_map-related one_pair 2 one_pair-IsConsistent

remove_exe-related_example :
    IsConsistent (ExeMapIndex.remove_exe one_pair 1)
    × ((e m : ℕ)
        → related (ExeMapIndex.remove_exe one_pair 1) e m
          ≡ ite (ℕ_discrete 1 e) false (related one_pair e m))
remove_exe-related_example = Related.remove_exe-related one_pair 1 one_pair-IsConsistent

seen-update_example :
    seen (ActiveSet.update two_seen (1 ∷ []) 70) 2
    ≡ (if member ℕ_discrete (1 ∷ []) 2 then some 70 else seen two_seen 2)
seen-update_example = Window.seen-update two_seen (1 ∷ []) 70 2

seen-prune_example :
    (seen (ActiveSet.prune two_seen 60 20).1 1
      ≡ retained (λ last. not (ActiveSet.expired 60 20 last)) (seen two_seen 1))
    × (contains ℕ_discrete (ActiveSet.prune two_seen 60 20).0 1
        ≡ elim (seen two_seen 1) [ none ↦ false | some last ↦ ActiveSet.expired 60 20 last ])
seen-prune_example = Window.seen-prune two_seen 60 20 1 two_seen-IsMap

one_edge-HasNoSelfEdge : SelfEdges.HasNoSelfEdge one_edge
one_edge-HasNoSelfEdge =
    SelfEdges.ensure_edge-AllKeys (λ k. k.a ≢ k.b) MarkovGraph.empty 1 2 0 neither
      (SelfEdges.new_edge_key-distinct 1 2 (omega arith)) (λ k i h. cc)

ensure_edge_example :
    Graph.IsValid (MarkovGraph.ensure_edge one_edge 3 1 5 neither).1
    × SelfEdges.HasNoSelfEdge (MarkovGraph.ensure_edge one_edge 3 1 5 neither).1
    × (Graph.find (MarkovGraph.ensure_edge one_edge 3 1 5 neither).1 (new_edge_key 1 2)
        ≡ ite
            (EdgeKey-discrete (new_edge_key 3 1) (new_edge_key 1 2))
            (elim (Graph.find one_edge (new_edge_key 1 2)) [
              | none ↦ some (Graph.new_edge 5 neither)
              | some old ↦ some old
            ])
            (Graph.find one_edge (new_edge_key 1 2)))
    × ((MarkovGraph.ensure_edge one_edge 3 1 5 neither).0
        ≡ elim (Graph.find one_edge (new_edge_key 3 1)) [ none ↦ true | some _ ↦ false ])
ensure_edge_example =
    SelfEdges.ensure_edge_lem one_edge 3 1 5 neither (new_edge_key 1 2) one_edge-IsValid
      one_edge-HasNoSelfEdge (omega arith)

get_example :
    ((MarkovGraph.get one_edge (new_edge_key 2 1) ≡ some none)
      × ((i : ℕ) → get_elem? one_edge.keys i ≢ some (new_edge_key 2 1)))
    ⊎ ((i : ℕ) × (e : EdgeRef millionths) × (MarkovGraph.get one_edge (new_edge_key 2 1)
          ≡ some (some e))
        × (get_elem? one_edge.keys i ≡ some (new_edge_key 2 1))
        × Read.StandsAt one_edge i e)
get_example = Read.get_lem one_edge (new_edge_key 2 1) one_edge-IsValid

abbrev only_one : HashSet ℕ
only_one = (1, tt) ∷ []

prune_inactive_example :
    (g : MarkovGraph millionths) × (MarkovGraph.prune_inactive one_edge only_one ≡ some g)
    × Prune.Pruned only_one one_edge g
prune_inactive_example = Prune.prune_inactive_lem only_one one_edge one_edge-IsValid

remove_map_by_key-IsValid_example :
    Invariant.IsValid (Model.remove_map_by_key one_map_of_exe (segment_key map_a))
remove_map_by_key-IsValid_example =
    Invariant.remove_map_by_key-IsValid env_laws one_map_of_exe one_map_of_exe-IsValid
      (segment_key map_a)

remove_map_by_key_example :
    ((k : MapKey)
      → MapIndex.segment_at (Model.remove_map_by_key one_map_of_exe (segment_key map_a)).maps k
        ≡ ite
            (MapKey-discrete (segment_key map_a) k)
            none
            (MapIndex.segment_at one_map_of_exe.maps k))
    × ((e m : ℕ)
        → related (Model.remove_map_by_key one_map_of_exe (segment_key map_a)).exe_maps e m ≡ (
            if Invariant.has_id one_map_of_exe (segment_key map_a) m
            then false
            else related one_map_of_exe.exe_maps e m))
    × ((Model.remove_map_by_key one_map_of_exe (segment_key map_a)).exes ≡ one_map_of_exe.exes)
    × ((Model.remove_map_by_key one_map_of_exe (segment_key map_a)).markov ≡ one_map_of_exe.markov)
remove_map_by_key_example =
    Invariant.remove_map_by_key_lem env_laws one_map_of_exe one_map_of_exe-IsValid
      (segment_key map_a)

-- For one exe named twice the code adds an edge of the exe with itself.
self_edge :
    SelfEdges.HasNoSelfEdge
      (MarkovGraph.ensure_edge {fl = millionths} MarkovGraph.empty 3 3 5 neither).1
    → ⊥
unfolding MarkovGraph.ensure_edge new_edge_key Map.get
self_edge none_self = none_self (new_edge_key 3 3) 0 refl refl
