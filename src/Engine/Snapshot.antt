-- ===== src/Engine/Snapshot.antt =====
-- The snapshot of the stores, and the stores of a snapshot.
use preload_ng.Prelude.{
  ℕ, suc, ◌-◌, Bool, false, Option, none, some, List, [], ◌∷◌, ◌++◌, map, leb, if◌then◌else◌,
}
use preload_ng.Prelude.HashMap as Map
use preload_ng.Domain.{FilePath, MapKey, MapSegment, Exe, new_segment, segment_key, neither}
use preload_ng.Error.{exe_missing, map_missing, Outcome, ok, panic, ok_or, ◌>>=◌}
use preload_ng.Floats.{Floats}
use preload_ng.Observation.ModelUpdater.{modify_exe}
use preload_ng.Stores.ActiveSet
use preload_ng.Stores.EdgeKey.{EdgeKey, EdgeKey-discrete, new_edge_key}
use preload_ng.Stores.ExeMapIndex
use preload_ng.Stores.ExeStore
use preload_ng.Stores.MapStore
use preload_ng.Stores.MarkovGraph
use preload_ng.Stores.MarkovGraph.{MarkovGraph, EdgeRef, Array4, for4, to_f32_slice, from_f32_slice}
use preload_ng.Stores.Model.{
  Env, Stores, empty_stores, ensure_exe, ensure_map, attach_map, ensure_markov_edge,
}

abbrev pub snapshot_schema_version : ℕ
snapshot_schema_version = 1

pub record SnapshotMeta : Type 0 where
  pub schema_version : ℕ
  pub app_version : Option (List ℕ)
  pub created_at : Option ℕ

pub record ExeRecord : Type 0 where
  pub path : FilePath
  pub total_running_time : ℕ
  pub last_seen_time : Option ℕ

pub record MapRecord : Type 0 where
  pub path : FilePath
  pub offset : ℕ
  pub length : ℕ
  pub update_time : ℕ

pub record ExeMapRecord (fl : Floats) : Type 0 where
  pub exe_path : FilePath
  pub map_key : MapKey
  pub prob : fl.F32

pub record MarkovRecord (fl : Floats) : Type 0 where
  pub exe_a : FilePath
  pub exe_b : FilePath
  pub time_to_leave : Array4 fl.F32
  pub transition_prob : Array4 (Array4 fl.F32)
  pub both_running_time : ℕ

pub record StateSnapshot (fl : Floats) : Type 0 where
  pub model_time : ℕ
  pub last_accounting_time : ℕ
  pub exes : List ExeRecord
  pub maps : List MapRecord
  pub exe_maps : List (ExeMapRecord fl)
  pub markov_edges : List (MarkovRecord fl)

pub record StoresSnapshot (fl : Floats) : Type 0 where
  pub meta : SnapshotMeta
  pub state : StateSnapshot fl

-- `filter_map`.
unfoldable pub filter_map : {A B : Type 0} → (A → Option B) → List A → List B
filter_map f [] = []
filter_map f (a ∷ xs) = let rest = filter_map f xs in elim (f a) [ none ↦ rest | some b ↦ b ∷ rest ]

module _ (env : Env) where
  open env use {floats}

  abbrev pub exe_record : Exe → ExeRecord
  exe_record exe = record {
    path = exe.key.path;
    total_running_time = exe.total_running_time;
    last_seen_time = exe.last_seen_time;
  }

  abbrev pub map_record : MapSegment → MapRecord
  map_record segment = record {
    path = segment.path;
    offset = segment.offset;
    length = segment.length;
    update_time = segment.update_time;
  }

  -- The maps of one exe that the map store knows.
  unfoldable pub exe_map_records : Stores env → ℕ → Exe → List (ExeMapRecord floats)
  exe_map_records st exe_id exe =
      filter_map
        (λ map_id. elim (MapStore.get st.maps map_id) [
          | none ↦ none
          | some segment ↦
              some (record {
                exe_path = exe.key.path;
                map_key = segment_key segment;
                prob = floats.one;
              })
        ])
        (ExeMapIndex.maps_for_exe st.exe_maps exe_id)

  unfoldable pub all_exe_map_records : Stores env → List (ℕ × Exe) → List (ExeMapRecord floats)
  all_exe_map_records st [] = []
  all_exe_map_records st ((exe_id, exe) ∷ exes) =
      exe_map_records st exe_id exe ++ all_exe_map_records st exes

  -- The record of an edge whose two exes are known.
  unfoldable pub markov_record :
      Stores env → EdgeKey → EdgeRef floats → Option (MarkovRecord floats)
  markov_record st key edge = elim (ExeStore.get st.exes key.a) [
    | none ↦ none
    | some exe_a ↦ elim (ExeStore.get st.exes key.b) [
      | none ↦ none
      | some exe_b ↦ some (record {
        exe_a = exe_a.key.path;
        exe_b = exe_b.key.path;
        time_to_leave = to_f32_slice floats edge.time_to_leave;
        transition_prob = for4 (λ _ row. to_f32_slice floats row) edge.transition_prob;
        both_running_time = edge.both_running_time;
      })
    ]
  ]

  -- `markov.iter()` from a position on; a position that is out of bounds panics.
  unfoldable pub markov_records :
      Stores env → ℕ → List EdgeKey → Option (List (MarkovRecord floats))
  markov_records st i [] = some []
  markov_records st i (key ∷ keys) = elim (MarkovGraph.edge_at st.markov i) [
    | none ↦ none
    | some edge ↦ elim (markov_records st (suc i) keys) [
      | none ↦ none
      | some rest ↦ some (elim (markov_record st key edge) [ none ↦ rest | some r ↦ r ∷ rest ])
    ]
  ]

  -- `created_at` is what the clock shows.
  unfoldable pub snapshot_from_stores : ℕ → Stores env → Option (StoresSnapshot floats)
  snapshot_from_stores created_at st = elim (markov_records st 0 st.markov.keys) [
    | none ↦ none
    | some edges ↦ some (record {
      meta = record {
        schema_version = snapshot_schema_version;
        app_version = none;
        created_at = some created_at;
      };
      state = record {
        model_time = st.model_time;
        last_accounting_time = st.last_accounting_time;
        exes = map (λ e. exe_record e.1) (ExeStore.iter st.exes);
        maps = map (λ e. map_record e.1) (MapStore.iter st.maps);
        exe_maps = all_exe_map_records st (ExeStore.iter st.exes);
        markov_edges = edges;
      };
    })
  ]

  unfoldable pub restore_maps : Stores env → List MapRecord → Stores env
  restore_maps st [] = st
  restore_maps st (r ∷ records) =
      restore_maps (ensure_map st (new_segment r.path r.offset r.length r.update_time)).1 records

  abbrev pub restored : ExeRecord → Exe → Exe
  restored r exe = record exe {
    total_running_time = r.total_running_time;
    last_seen_time = r.last_seen_time;
  }

  unfoldable pub restore_exes : Stores env → List ExeRecord → Stores env
  restore_exes st [] = st
  restore_exes st (r ∷ records) =
      let (exe_id, known) = ensure_exe st (record { path = r.path }) in
      restore_exes (modify_exe known exe_id (restored r)) records

  -- Whether the exe was seen inside the window before the model time.
  unfoldable pub is_recent : ℕ → ℕ → Exe → Bool
  is_recent model_time active_window exe = elim exe.last_seen_time [
    | none ↦ false
    | some last_seen ↦ leb (model_time - last_seen) active_window
  ]

  unfoldable pub restore_active : ℕ → Stores env → List (ℕ × Exe) → Stores env
  restore_active active_window st [] = st
  restore_active active_window st ((exe_id, exe) ∷ exes) =
      let rest : Stores env =
        if is_recent st.model_time active_window exe
        then record st { active = ActiveSet.update st.active (exe_id ∷ []) st.model_time }
        else st in
      restore_active active_window rest exes

  unfoldable pub restore_exe_maps : Stores env → List (ExeMapRecord floats) → Outcome (Stores env)
  restore_exe_maps st [] = ok st
  restore_exe_maps st (r ∷ records) =
      ok_or (ExeStore.id_by_key st.exes (record { path = r.exe_path })) (exe_missing r.exe_path)
      >>= λ exe_id.
          ok_or (MapStore.id_by_key st.maps r.map_key) (map_missing r.map_key.path) >>= λ map_id.
          restore_exe_maps (attach_map st exe_id map_id) records

  -- The writes of a record to its edge.
  abbrev pub restored_edge : MarkovRecord floats → EdgeRef floats → EdgeRef floats
  restored_edge r edge = record edge {
    time_to_leave = from_f32_slice floats r.time_to_leave;
    transition_prob = for4 (λ _ row. from_f32_slice floats row) r.transition_prob;
    both_running_time = r.both_running_time;
  }

  -- The writes through `get_mut` at a key.
  unfoldable pub put_restored :
      MarkovGraph floats → EdgeKey → MarkovRecord floats → Outcome (MarkovGraph floats)
  put_restored g key r = elim (Map.get EdgeKey-discrete g.key_to_index key) [
    | none ↦ ok g
    | some i ↦ elim (MarkovGraph.edge_at g i) [
      | none ↦ panic
      | some edge ↦ ok (MarkovGraph.put_at g i (restored_edge r edge))
    ]
  ]

  unfoldable pub restore_edge : Stores env → ℕ → ℕ → MarkovRecord floats → Outcome (Stores env)
  restore_edge st a b r =
      let (is_new, known) = ensure_markov_edge st a b st.model_time neither in
      if is_new
      then (put_restored known.markov (new_edge_key a b) r >>= λ g.
          ok (record known { markov = g }))
      else ok known

  unfoldable pub restore_edges : Stores env → List (MarkovRecord floats) → Outcome (Stores env)
  restore_edges st [] = ok st
  restore_edges st (r ∷ records) =
      ok_or (ExeStore.id_by_key st.exes (record { path = r.exe_a })) (exe_missing r.exe_a) >>= λ a.
      ok_or (ExeStore.id_by_key st.exes (record { path = r.exe_b })) (exe_missing r.exe_b) >>= λ b.
      restore_edge st a b r >>= λ st'. restore_edges st' records

  -- The last step: only the edges between active exes are kept.
  unfoldable pub prune_edges : Stores env → Outcome (Stores env)
  prune_edges st = elim (MarkovGraph.prune_inactive st.markov (ActiveSet.exes st.active)) [
    | none ↦ panic
    | some g ↦ ok (record st { markov = g })
  ]

  unfoldable pub stores_from_snapshot : StoresSnapshot floats → ℕ → Outcome (Stores env)
  stores_from_snapshot snapshot active_window =
      let state = snapshot.state in
      let start : Stores env = record empty_stores {
        model_time = state.model_time;
        last_accounting_time = state.last_accounting_time;
      } in
      let known = restore_exes (restore_maps start state.maps) state.exes in
      restore_exe_maps (restore_active active_window known (ExeStore.iter known.exes))
        state.exe_maps
      >>= λ related. restore_edges related state.markov_edges >>= λ connected. prune_edges connected
