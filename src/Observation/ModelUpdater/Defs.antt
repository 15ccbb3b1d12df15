-- ===== src/Observation/ModelUpdater/Defs.antt =====
-- `DefaultModelUpdater::apply`, loop by loop. Its answer `none` is a panic of the graph.
use preload_ng.Prelude.{
  ℕ, suc, ◌+◌, ◌-◌, ◌^◌, min, Bool, true, false, ◌&&◌, not, Option, none, some, List, [], ◌∷◌, ◌++◌,
  map, ℕ_discrete, ltb, if◌then◌else◌,
}
use preload_ng.Prelude.HashMap as Map
use preload_ng.Prelude.HashMap.{HashMap, HashSet}
use preload_ng.Domain.{
  FilePath, FilePath-discrete, ExeKey, MapKey, MapSegment, segment_key, Exe, MarkovState,
  from_running,
}
use preload_ng.Floats.{Floats}
use preload_ng.Observation.Event.{
  ObservationEvent, Observation, obs_begin, exe_seen, map_seen, mem_stat, obs_end, CandidateExe,
  new_candidate,
}
use preload_ng.Observation.Admission.{
  AdmissionDecision, accept, reject, defer, RejectReason, Completeness, full, partial,
}
use preload_ng.Stores.ExeStore
use preload_ng.Stores.ExeStore.{ExeStore}
use preload_ng.Stores.ActiveSet
use preload_ng.Stores.EdgeKey.{EdgeKey}
use preload_ng.Stores.MarkovGraph
use preload_ng.Stores.MarkovGraph.{MarkovGraph, EdgeRef, update_state}
use preload_ng.Stores.Model.{
  Env, Stores, ensure_exe, ensure_map_with_flag, attach_map, ensure_markov_edge,
}

-- `dyn AdmissionPolicy`: a decision may change the policy's cache.
pub record Policy (P : Type 0) : Type 0 where
  pub allow_exe : P → FilePath → Bool
  pub allow_map : P → FilePath → Bool
  pub decide : P → CandidateExe → AdmissionDecision × P

pub record ModelDelta : Type 0 where
  pub new_exes : List ExeKey
  pub new_maps : List MapKey
  pub new_edges : List (ExeKey × ExeKey)
  pub running_now : List ExeKey
  pub stopped_now : List ExeKey
  pub rejected : List (ExeKey × RejectReason)
  pub partial_exes : List ExeKey

abbrev pub no_delta : ModelDelta
no_delta = record {
  new_exes = [];
  new_maps = [];
  new_edges = [];
  running_now = [];
  stopped_now = [];
  rejected = [];
  partial_exes = [];
}

pub record ModelUpdater (fl : Floats) : Type 0 where
  pub active_window : ℕ
  pub decay : fl.F32

abbrev pub u64_max : ℕ
u64_max = 2 ^ 64 - 1

abbrev pub saturating_add : ℕ → ℕ → ℕ
saturating_add a b = min (a + b) u64_max

-- What the loop over the events collects.
pub record Gathered : Type 0 where
  pub candidates : HashMap FilePath CandidateExe
  pub running_paths : HashSet FilePath
  pub now : ℕ

module _ {P : Type 0} (dyn : Policy P) (policy : P) where
  -- A map that the policy allows, or does not allow, is recorded.
  unfoldable pub add_map : CandidateExe → MapSegment → CandidateExe
  add_map candidate segment =
      if dyn.allow_map policy segment.path
      then record candidate {
        total_size = saturating_add candidate.total_size segment.length;
        maps = candidate.maps ++ segment ∷ [];
      }
      else record candidate { rejected_maps = candidate.rejected_maps ++ segment.path ∷ [] }

  unfoldable pub gather_event : Gathered → ObservationEvent → Gathered
  gather_event g (obs_begin time scan_id) = record g { now = time }
  gather_event g (exe_seen path pid) = record g {
    running_paths = Map.add FilePath-discrete g.running_paths path;
    candidates = Map.or_insert FilePath-discrete g.candidates path (new_candidate path pid);
  }
  gather_event g (map_seen exe_path segment) =
      let candidate : CandidateExe = elim (Map.get FilePath-discrete g.candidates exe_path) [
        | none ↦ new_candidate exe_path 0
        | some known ↦ known
      ] in
      record g {
        candidates = Map.insert FilePath-discrete g.candidates exe_path (add_map candidate segment);
      }
  gather_event g (mem_stat mem) = g
  gather_event g (obs_end time scan_id warnings) = g

  unfoldable pub gather : Gathered → Observation → Gathered
  gather g [] = g
  gather g (event ∷ events) = gather (gather_event g event) events

-- What the later loops change: the stores, the policy, the delta and the ids that are active.
pub record Progress (env : Env) (P : Type 0) : Type 0 where
  pub stores : Stores env
  pub policy : P
  pub delta : ModelDelta
  pub active_exe_ids : HashSet ℕ

-- `markov.iter_mut()`: the positions in order.
unfoldable pub account_edges :
    {fl : Floats}
    → (EdgeKey → EdgeRef fl → EdgeRef fl)
    → MarkovGraph fl
    → ℕ
    → List EdgeKey
    → Option (MarkovGraph fl)
account_edges f g i [] = some g
account_edges f g i (key ∷ keys) = elim (MarkovGraph.edge_at g i) [
  | none ↦ none
  | some edge ↦ account_edges f (MarkovGraph.put_at g i (f key edge)) (suc i) keys
]

-- The accounting of one exe.
unfoldable pub lengthen : ℕ → Exe → Exe
lengthen period exe =
    if exe.running
    then record exe { total_running_time = saturating_add exe.total_running_time period }
    else exe

module _ {env : Env} where
  -- A write through `get_mut`, where the exe is known.
  unfoldable pub modify_exe : Stores env → ℕ → (Exe → Exe) → Stores env
  modify_exe st id f = elim (ExeStore.get st.exes id) [
    | none ↦ st
    | some exe ↦ record st { exes = ExeStore.put st.exes id (f exe) }
  ]

  -- The maps of an accepted candidate.
  unfoldable pub add_maps : Stores env → ModelDelta → ℕ → List MapSegment → Stores env × ModelDelta
  add_maps st delta exe_id [] = (st, delta)
  add_maps st delta exe_id (segment ∷ segments) =
      let (r, known) = ensure_map_with_flag st segment in
      add_maps (attach_map known exe_id r.0)
        (if r.1
          then record delta { new_maps = delta.new_maps ++ segment_key segment ∷ [] }
          else delta)
        exe_id segments

  module _ {P : Type 0} (dyn : Policy P) (running_paths : HashSet FilePath) (now : ℕ) where
    unfoldable pub admit : Progress env P → CandidateExe → Completeness → Progress env P
    admit g candidate completeness =
        let key : ExeKey = record { path = candidate.path } in
        let is_new : Bool = elim (ExeStore.id_by_key g.stores.exes key) [
          | none ↦ true
          | some _ ↦ false
        ] in
        let (exe_id, with_exe) = ensure_exe g.stores key in
        let delta : ModelDelta = record g.delta {
          new_exes = if is_new then g.delta.new_exes ++ key ∷ [] else g.delta.new_exes;
          partial_exes = elim completeness [
            | full ↦ g.delta.partial_exes
            | partial ↦ g.delta.partial_exes ++ key ∷ []
          ];
        } in
        let (with_maps, delta') =
          add_maps (modify_exe with_exe exe_id (λ exe. record exe { last_seen_time = some now }))
            delta exe_id candidate.maps in
        record g {
          stores = with_maps;
          delta = delta';
          active_exe_ids =
              if Map.contains FilePath-discrete running_paths candidate.path
              then Map.add ℕ_discrete g.active_exe_ids exe_id
              else g.active_exe_ids;
        }

    -- What is done about a decision.
    unfoldable pub follow : Progress env P → CandidateExe → AdmissionDecision → Progress env P
    follow g candidate (accept completeness) = admit g candidate completeness
    follow g candidate (reject reason) = record g {
      delta = record g.delta {
        rejected = g.delta.rejected ++ (record { path = candidate.path }, reason) ∷ [];
      };
    }
    follow g candidate defer = g

    unfoldable pub consider : Progress env P → CandidateExe → Progress env P
    consider g candidate =
        let (decision, policy) = dyn.decide g.policy candidate in
        follow (record g { policy = policy }) candidate decision

    unfoldable pub consider_all : Progress env P → HashMap FilePath CandidateExe → Progress env P
    consider_all g [] = g
    consider_all g ((_, candidate) ∷ candidates) = consider_all (consider g candidate) candidates

    -- The running flag of one exe.
    unfoldable pub set_running : Progress env P → ℕ → Progress env P
    set_running g exe_id = elim (ExeStore.get g.stores.exes exe_id) [
      | none ↦ g
      | some exe ↦
          let is_running = Map.contains FilePath-discrete running_paths exe.key.path in
          let changed = if is_running then not exe.running else exe.running in
          let exe' : Exe = record exe {
            change_time = if changed then now else exe.change_time;
            running = is_running;
          } in
          record g {
            stores = record g.stores { exes = ExeStore.put g.stores.exes exe_id exe' };
            delta = record g.delta {
              running_now =
                  if changed && is_running
                  then g.delta.running_now ++ exe.key ∷ []
                  else g.delta.running_now;
              stopped_now =
                  if changed && not is_running
                  then g.delta.stopped_now ++ exe.key ∷ []
                  else g.delta.stopped_now;
            };
            active_exe_ids =
                if is_running then Map.add ℕ_discrete g.active_exe_ids exe_id else g.active_exe_ids;
          }
    ]

    unfoldable pub set_running_all : Progress env P → List ℕ → Progress env P
    set_running_all g [] = g
    set_running_all g (id ∷ ids) = set_running_all (set_running g id) ids

  -- `get(id).map(|e| e.running).unwrap_or(false)`.
  unfoldable pub is_running_id : Stores env → ℕ → Bool
  is_running_id st id = elim (ExeStore.get st.exes id) [ none ↦ false | some exe ↦ exe.running ]

  abbrev pub pair_state : Stores env → ℕ → ℕ → MarkovState
  pair_state st a b = from_running (is_running_id st a) (is_running_id st b)

  -- One pair of active exes.
  unfoldable pub connect : ℕ → Stores env × ModelDelta → ℕ → ℕ → Stores env × ModelDelta
  connect now (st, delta) a b =
      let (is_new, st') = ensure_markov_edge st a b now (pair_state st a b) in
      let named : ModelDelta = elim (ExeStore.get st'.exes a) [
        | none ↦ delta
        | some a_exe ↦ elim (ExeStore.get st'.exes b) [
          | none ↦ delta
          | some b_exe ↦ record delta { new_edges = delta.new_edges ++ (a_exe.key, b_exe.key) ∷ [] }
        ]
      ] in
      (st', if is_new then named else delta)

  unfoldable pub connect_with : ℕ → Stores env × ModelDelta → ℕ → List ℕ → Stores env × ModelDelta
  connect_with now s a [] = s
  connect_with now s a (b ∷ bs) = connect_with now (connect now s a b) a bs

  -- Each pair `(i, j)` with `i < j`.
  unfoldable pub connect_all : ℕ → Stores env × ModelDelta → List ℕ → Stores env × ModelDelta
  connect_all now s [] = s
  connect_all now s (a ∷ rest) = connect_all now (connect_with now s a rest) rest

  unfoldable pub add_period : ℕ → Stores env → List ℕ → Stores env
  add_period period st [] = st
  add_period period st (id ∷ ids) = add_period period (modify_exe st id (lengthen period)) ids

  -- The body of the loop over the edges.
  unfoldable pub account_edge :
      Stores env → ℕ → ℕ → env.floats.F32 → EdgeKey → EdgeRef env.floats → EdgeRef env.floats
  account_edge st period now decay key edge =
      let a_running = is_running_id st key.a in
      let b_running = is_running_id st key.b in
      let counted : EdgeRef env.floats =
        if ltb 0 period && (a_running && b_running)
        then record edge { both_running_time = saturating_add edge.both_running_time period }
        else edge in
      update_state env.floats counted (from_running a_running b_running) now decay

  unfoldable pub count_period : ℕ → Stores env → Stores env
  count_period period st =
      if ltb 0 period then add_period period st (map (λ e. e.0) (ExeStore.iter st.exes)) else st

  -- The accounting of the running times and of the transitions, and the new times.
  unfoldable pub account : ModelUpdater env.floats → ℕ → Stores env → Option (Stores env)
  account updater now st =
      let period = now - st.last_accounting_time in
      let counted = count_period period st in
      elim (account_edges (account_edge counted period now updater.decay) counted.markov 0
        counted.markov.keys) [
          | none ↦ none
          | some markov ↦
              some
                (record counted { markov = markov; last_accounting_time = now; model_time = now })
        ]

  -- From the update of the active set to the end.
  unfoldable pub finish :
      ModelUpdater env.floats
      → ℕ
      → Stores env
      → ModelDelta
      → HashSet ℕ
      → Option (Stores env × ModelDelta)
  finish updater now st delta active_exe_ids =
      let seen = ActiveSet.update st.active (Map.keys active_exe_ids) now in
      let kept = (ActiveSet.prune seen now updater.active_window).1 in
      let active = ActiveSet.exes kept in
      elim (MarkovGraph.prune_inactive st.markov active) [
        | none ↦ none
        | some pruned ↦
            let (connected, delta') =
              connect_all now (record st { active = kept; markov = pruned }, delta)
                (Map.keys active) in
            elim (account updater now connected) [
              | none ↦ none
              | some accounted ↦ some (accounted, delta')
            ]
      ]

  unfoldable pub apply :
      {P : Type 0}
      → ModelUpdater env.floats
      → Policy P
      → P
      → Stores env
      → Observation
      → Option ((Stores env × ModelDelta) × P)
  apply updater dyn policy st observation =
      let seen =
        gather dyn policy (record { candidates = []; running_paths = []; now = st.model_time })
          observation in
      let considered =
        consider_all dyn seen.running_paths seen.now
          (record { stores = st; policy = policy; delta = no_delta; active_exe_ids = [] })
          seen.candidates in
      let ran =
        set_running_all dyn seen.running_paths seen.now considered
          (map (λ e. e.0) (ExeStore.iter considered.stores.exes)) in
      elim (finish updater seen.now ran.stores ran.delta ran.active_exe_ids) [
        | none ↦ none
        | some done ↦ some (done, ran.policy)
      ]
