-- ===== src/Engine/Restore.antt =====
-- The stores that `stores_from_snapshot` of crates/orchestrator/src/engine.rs builds.
pub mod Records
pub mod Untouched
pub mod Edges
use preload_ng.Prelude.{
  ℕ, ◌≡◌, refl, ◌∙◌, ◌≢◌, ◌⊎◌, inl, inr, Bool, true, false, any, Option, none, some, List, [], ◌∷◌,
  arith, Bool-cases, Option-cases, get_elem?-lt,
}
use preload_ng.Prelude.HashMap as Map
use preload_ng.Domain.{FilePath-discrete, ExeKey, MapKey, Exe, new_segment, neither}
use preload_ng.Error.{
  Outcome, ok, err, panic, exe_missing, map_missing, ok_or, Holds, Holds-weaken, bind-Holds,
}
use preload_ng.Observation.ModelUpdater.{modify_exe}
use preload_ng.Observation.ModelUpdater.Preserves
use preload_ng.Stores.ActiveSet
use preload_ng.Stores.ActiveSet.Window
use preload_ng.Stores.EdgeKey.{EdgeKey, EdgeKey-discrete, new_edge_key}
use preload_ng.Stores.ExeStore
use preload_ng.Stores.MapStore
use preload_ng.Stores.MarkovGraph.{MarkovGraph}
use preload_ng.Stores.MarkovGraph.Index as Graph
use preload_ng.Stores.MarkovGraph
use preload_ng.Stores.MarkovGraph.Prune
use preload_ng.Stores.MarkovGraph.SelfEdges.{
  AllKeys, HasNoSelfEdge, new_edge_key-distinct, ensure_edge-AllKeys, put_at-AllKeys,
  Pruned-AllKeys,
}
use preload_ng.Stores.Invariant.{IsValid}
use preload_ng.Stores.Preserve
use preload_ng.Stores.Model.{
  Env, EnvLaws, Stores, empty_stores, ensure_exe, ensure_map, attach_map, ensure_markov_edge,
}
use preload_ng.Engine.Restore.Untouched.{
  joins_itself, restore_maps-markov, restore_exes-markov, restore_active-markov,
}
use preload_ng.Engine.Snapshot.{
  ExeRecord, MapRecord, ExeMapRecord, MarkovRecord, StoresSnapshot, restore_maps, restored,
  restore_exes, is_recent, restore_active, restore_exe_maps, put_restored, restored_edge,
  restore_edge, restore_edges, prune_edges, stores_from_snapshot,
}
use preload_ng.Engine.Restore.Records.{
  at_times-IsValid, restore_maps-IsValid, restore_exes-IsValid, restore_active-IsValid,
}
use preload_ng.Engine.Restore.Edges.{
  IsSound, restore_exe_maps-Holds, restore_edges-Holds, prune_edges-Holds,
}

-- What the reason is: a record that joins an exe with itself.
IsSound-cases :
    {env : Env} (b : Bool) (st : Stores env)
    → IsSound (b ≡ true) st
    → IsValid st × ((b ≡ true) ⊎ HasNoSelfEdge st.markov)
IsSound-cases true st (v, all) = (v, inl refl)
IsSound-cases false st (v, all) =
    (v, inr (λ k i h. elim (all k i h) [ inl differ ↦ differ | inr impossible ↦ absurd (cc) ]))

module _ {env : Env} (laws : EnvLaws env) where
  -- From any snapshot `stores_from_snapshot` gives stores or an error, and never panics. The stores
  -- are valid, and no exe has an edge with itself, unless a record of the snapshot joins an exe with
  -- itself.
  pub stores_from_snapshot-IsValid :
      (snapshot : StoresSnapshot env.floats) (active_window : ℕ)
      → Holds
          (λ st.
            IsValid st
            × ((any joins_itself snapshot.state.markov_edges ≡ true) ⊎ HasNoSelfEdge st.markov))
          (stores_from_snapshot env snapshot active_window)
  unfolding stores_from_snapshot
  stores_from_snapshot-IsValid snapshot active_window =
      let state = snapshot.state in
      let itself = any joins_itself state.markov_edges in
      let P : Type 0 = itself ≡ true in
      let start : Stores env = record empty_stores {
        model_time = state.model_time;
        last_accounting_time = state.last_accounting_time;
      } in
      let v0 =
        at_times-IsValid empty_stores state.model_time state.last_accounting_time
          (Preserve.empty_stores-IsValid laws) in
      let mapped = restore_maps env start state.maps in
      let known = restore_exes env mapped state.exes in
      let v1 =
        restore_exes-IsValid laws mapped state.exes
          (restore_maps-IsValid laws start state.maps v0) in
      let active = restore_active env active_window known (ExeStore.iter known.exes) in
      let v2 = restore_active-IsValid laws active_window known (ExeStore.iter known.exes) v1 in
      let no_edge : active.markov ≡ MarkovGraph.empty =
        restore_active-markov active_window known (ExeStore.iter known.exes)
        ∙ restore_exes-markov mapped state.exes
        ∙ restore_maps-markov start state.maps in
      let all2 : AllKeys (λ k. (k.a ≢ k.b) ⊎ P) active.markov = rw no_edge (λ k i h. absurd (cc)) in
      Holds-weaken (IsSound P) _ _ (IsSound-cases itself) (
        bind-Holds _ _ (restore_exe_maps env active state.exe_maps) _
          (restore_exe_maps-Holds laws P active state.exe_maps (v2, all2))
          (λ related s3.
            bind-Holds _ _ (restore_edges env related state.markov_edges) _
              (restore_edges-Holds laws P related state.markov_edges (λ h. h) s3)
              (λ connected s4. prune_edges-Holds laws P connected s4)))
