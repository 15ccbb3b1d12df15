-- ===== src/Engine/Restore/Edges.antt =====
-- The loops of `stores_from_snapshot` in crates/orchestrator/src/engine.rs over the records of relations
-- and edges: they never panic and keep the stores valid, and an edge of an exe with itself has a reason.
use preload_ng.Prelude.{
  ℕ, ◌≡◌, ◌≢◌, ◌⊎◌, inl, inr, true, false, any, none, some, List, [], ◌∷◌, arith, Bool-cases,
  Option-cases, get_elem?-lt,
}
use preload_ng.Prelude.HashMap as Map
use preload_ng.Domain.{FilePath-discrete, ExeKey, MapKey, neither}
use preload_ng.Error.{exe_missing, map_missing, ok_or, Holds, bind-Holds}
use preload_ng.Observation.ModelUpdater.Preserves
use preload_ng.Stores.ActiveSet
use preload_ng.Stores.EdgeKey.{EdgeKey, EdgeKey-discrete, new_edge_key}
use preload_ng.Stores.ExeStore
use preload_ng.Stores.MapStore
use preload_ng.Stores.MarkovGraph.{MarkovGraph}
use preload_ng.Stores.MarkovGraph.Index as Graph
use preload_ng.Stores.MarkovGraph.Prune
use preload_ng.Stores.MarkovGraph.SelfEdges.{
  AllKeys, new_edge_key-distinct, ensure_edge-AllKeys, put_at-AllKeys, Pruned-AllKeys,
}
use preload_ng.Stores.Invariant.{IsValid}
use preload_ng.Stores.Preserve
use preload_ng.Stores.Model.{Env, EnvLaws, Stores, attach_map, ensure_markov_edge}
use preload_ng.Engine.Restore.Untouched.{joins_itself}
use preload_ng.Engine.Snapshot.{
  ExeMapRecord, MarkovRecord, restore_exe_maps, put_restored, restored_edge, restore_edge,
  restore_edges, prune_edges,
}
use preload_ng.Engine.Restore.Records.{ok_or-Holds, with_markov-IsValid}

-- The stores are valid, and either no exe has an edge with itself or there is this reason.
abbrev pub IsSound : {env : Env} → Type 0 → Stores env → Type 0
IsSound P st = IsValid st × AllKeys (λ k. (k.a ≢ k.b) ⊎ P) st.markov

module _ {env : Env} (laws : EnvLaws env) where
  id_by_key-exe :
      (st : Stores env)
      → IsValid st
      → (key : ExeKey) (id : ℕ) → ExeStore.id_by_key st.exes key ≡ some id
      → ExeStore.get st.exes id ≢ none
  unfolding ExeStore.id_by_key ExeStore.get
  id_by_key-exe st v key id h = ground (arith, v.exes.found key id h)

  id_by_key-map :
      (st : Stores env)
      → IsValid st
      → (key : MapKey) (id : ℕ) → MapStore.id_by_key st.maps key ≡ some id
      → MapStore.get st.maps id ≢ none
  unfolding MapStore.id_by_key MapStore.get
  id_by_key-map st v key id h = ground (arith, v.maps.found key id h)

  pub restore_exe_maps-Holds :
      (P : Type 0) (st : Stores env) (records : List (ExeMapRecord env.floats))
      → IsSound P st
      → Holds (IsSound P) (restore_exe_maps env st records)
  unfolding restore_exe_maps attach_map
  restore_exe_maps-Holds P st [] s = s
  restore_exe_maps-Holds P st (r ∷ records) (v, all) =
      bind-Holds _ _
        (ok_or (ExeStore.id_by_key st.exes (record { path = r.exe_path })) (exe_missing r.exe_path))
        _
        (ok_or-Holds (ExeStore.id_by_key st.exes (record { path = r.exe_path }))
          (exe_missing r.exe_path))
        (λ exe_id exe.
          bind-Holds _ _ (ok_or (MapStore.id_by_key st.maps r.map_key) (map_missing r.map_key.path))
            _ (ok_or-Holds (MapStore.id_by_key st.maps r.map_key) (map_missing r.map_key.path))
            (λ map_id segment. restore_exe_maps-Holds P (attach_map st exe_id map_id) records (
              Preserve.attach_map-IsValid laws st v exe_id map_id
                  (id_by_key-exe st v (record { path = r.exe_path }) exe_id exe)
                  (id_by_key-map st v r.map_key map_id segment),
              all,
            )))

  put_restored-Holds :
      (Q : EdgeKey → Type 0) (g : MarkovGraph env.floats) (key : EdgeKey)
      (r : MarkovRecord env.floats)
      → Graph.IsValid g
      → AllKeys Q g
      → Holds (λ g'. Graph.IsValid g' × AllKeys Q g') (put_restored env g key r)
  unfolding put_restored
  put_restored-Holds Q g key r v all =
      elim (Option-cases (Map.get EdgeKey-discrete g.key_to_index key)) [
        | inl absent ↦ rw (absent, put_restored) (v, all)
        | inr (i, there) ↦
            let (edge, at_i) =
              Graph.edge_at-exists g i v (get_elem?-lt g.keys i (v.indexed key i there)) in
            rw (there, put_restored, at_i)
              (
                Preserves.put_at-IsValid g i (restored_edge env r edge) v,
                put_at-AllKeys Q g i (restored_edge env r edge) all,
              )
      ]

  restore_edge-Holds :
      (P : Type 0) (st : Stores env) (a b : ℕ) (r : MarkovRecord env.floats)
      → (a ≢ b) ⊎ P
      → IsSound P st
      → Holds (IsSound P) (restore_edge env st a b r)
  unfolding restore_edge ensure_markov_edge
  restore_edge-Holds P st a b r differ (v, all) =
      let Q : EdgeKey → Type 0 = λ k. (k.a ≢ k.b) ⊎ P in
      let known = ensure_markov_edge st a b st.model_time neither in
      let valid = Preserve.ensure_markov_edge-IsValid laws st v a b st.model_time neither in
      let named : Q (new_edge_key a b) = elim differ [
        | inl h ↦ inl (new_edge_key-distinct a b h)
        | inr p ↦ inr p
      ] in
      let all' = ensure_edge-AllKeys Q st.markov a b st.model_time neither named all in
      elim (Bool-cases known.0) [
        | inl new ↦
            rw (new, restore_edge)
              (bind-Holds _ _ (put_restored env known.1.markov (new_edge_key a b) r) _
                (put_restored-Holds Q known.1.markov (new_edge_key a b) r valid.markov all')
                (λ g (h, h'). (with_markov-IsValid known.1 g valid h, h')))
        | inr old ↦ rw (old, restore_edge) (valid, all')
      ]

  -- Two known exes with different paths have different ids.
  ids-differ :
      (st : Stores env)
      → IsValid st
      → (r : MarkovRecord env.floats) (a b : ℕ)
      → ExeStore.id_by_key st.exes (record { path = r.exe_a }) ≡ some a
      → ExeStore.id_by_key st.exes (record { path = r.exe_b }) ≡ some b
      → joins_itself r ≡ false
      → a ≢ b
  unfolding ExeStore.id_by_key
  ids-differ st v r a b at_a at_b differ same =
      let of_a = v.exes.found (record { path = r.exe_a }) a at_a in
      let of_b = v.exes.found (record { path = r.exe_b }) b at_b in
      elim (FilePath-discrete r.exe_a r.exe_b) [
        | yes e ↦ absurd (ground (arith, e))
        | no n ↦ n (ground (arith, same, of_a, of_b))
      ]

  pub restore_edges-Holds :
      (P : Type 0) (st : Stores env) (records : List (MarkovRecord env.floats))
      → (any joins_itself records ≡ true → P)
      → IsSound P st
      → Holds (IsSound P) (restore_edges env st records)
  unfolding restore_edges
  restore_edges-Holds P st [] reason s = s
  restore_edges-Holds P st (r ∷ records) reason s =
      bind-Holds _ _
        (ok_or (ExeStore.id_by_key st.exes (record { path = r.exe_a })) (exe_missing r.exe_a)) _
        (ok_or-Holds (ExeStore.id_by_key st.exes (record { path = r.exe_a })) (exe_missing r.exe_a))
        (λ a at_a.
          bind-Holds _ _
            (ok_or (ExeStore.id_by_key st.exes (record { path = r.exe_b })) (exe_missing r.exe_b)) _
            (ok_or-Holds (ExeStore.id_by_key st.exes (record { path = r.exe_b }))
              (exe_missing r.exe_b))
            (λ b at_b.
              bind-Holds _ _ (restore_edge env st a b r) _
                (restore_edge-Holds P st a b r
                  (elim (Bool-cases (joins_itself r)) [
                    | inl itself ↦ inr (reason (ground arith))
                    | inr others ↦ inl (ids-differ st s.0 r a b at_a at_b others)
                  ])
                  s)
                (λ st' s'. restore_edges-Holds P st' records (λ h. reason (ground arith)) s')))

  pub prune_edges-Holds :
      (P : Type 0) (st : Stores env) → IsSound P st → Holds (IsSound P) (prune_edges env st)
  unfolding prune_edges
  prune_edges-Holds P st (v, all) =
      let active = ActiveSet.exes st.active in
      let (g, done, p) = Prune.prune_inactive_lem active st.markov v.markov in
      rw (done, prune_edges)
        (
          with_markov-IsValid st g v p.valid,
          Pruned-AllKeys (λ k. (k.a ≢ k.b) ⊎ P) active st.markov g v.markov p all,
        )
