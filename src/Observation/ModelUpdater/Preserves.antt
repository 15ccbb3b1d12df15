-- ===== src/Observation/ModelUpdater/Preserves.antt =====
-- Each loop of the update keeps the invariant of the stores.
use preload_ng.Prelude.{
  ℕ, suc, ◌+◌, ◌≤◌, ◌≡◌, refl, ◌∙◌, ◌≢◌, inl, inr, none, some, List, [], ◌∷◌, arith, Option-cases,
  length, length-set,
}
use preload_ng.Prelude.HashMap.{HashMap, HashSet}
use preload_ng.Domain.{FilePath, ExeKey, MapSegment, Exe}
use preload_ng.Floats.{Floats}
use preload_ng.Observation.Event.{CandidateExe}
use preload_ng.Observation.Admission.{accept, reject, defer, Completeness, AdmissionDecision}
use preload_ng.Stores.EdgeKey.{EdgeKey}
use preload_ng.Stores.ExeStore
use preload_ng.Stores.ExeStore.Index as ExeIndex
use preload_ng.Stores.MapStore.Index as MapIndex
use preload_ng.Stores.MarkovGraph
use preload_ng.Stores.MarkovGraph.{MarkovGraph, EdgeRef}
use preload_ng.Stores.MarkovGraph.Index as Graph
use preload_ng.Stores.Invariant.{IsValid}
use preload_ng.Stores.Preserve
use preload_ng.Stores.Model.{Env, EnvLaws, Stores, ensure_exe, ensure_map_with_flag, attach_map}
use preload_ng.Observation.ModelUpdater.Defs.{
  Policy, ModelDelta, Progress, modify_exe, add_maps, admit, follow, consider, consider_all,
  set_running, set_running_all, connect, connect_with, connect_all, add_period, account_edges,
  lengthen,
}

key-lengthen : (period : ℕ) (exe : Exe) → (lengthen period exe).key ≡ exe.key
unfolding lengthen
key-lengthen period exe = ground arith

-- The write of an edge keeps the graph valid.
pub put_at-IsValid :
    {fl : Floats} (g : MarkovGraph fl) (i : ℕ) (e : EdgeRef fl)
    → Graph.IsValid g
    → Graph.IsValid (MarkovGraph.put_at g i e)
unfolding MarkovGraph.put_at
put_at-IsValid g i e v = record {
  states = length-set g.states i e.state ∙ v.states;
  last_change_times = length-set g.last_change_times i e.last_change_time ∙ v.last_change_times;
  state_last_left = length-set g.state_last_left i e.state_last_left ∙ v.state_last_left;
  time_to_leave = length-set g.time_to_leave i e.time_to_leave ∙ v.time_to_leave;
  transition_prob = length-set g.transition_prob i e.transition_prob ∙ v.transition_prob;
  both_running_times = length-set g.both_running_times i e.both_running_time ∙ v.both_running_times;
  indexed = v.indexed;
  listed = v.listed;
}

-- The loop over the edges does not panic and keeps the graph valid.
pub account_edges-IsValid :
    {fl : Floats} (f : EdgeKey → EdgeRef fl → EdgeRef fl) (g : MarkovGraph fl) (i : ℕ)
    (keys : List EdgeKey)
    → Graph.IsValid g
    → i + length keys ≤ length g.keys
    → (g' : MarkovGraph fl) × (account_edges f g i keys ≡ some g') × Graph.IsValid g'
unfolding account_edges MarkovGraph.put_at
account_edges-IsValid f g i [] v h = (g, refl, v)
account_edges-IsValid f g i (key ∷ keys) v h =
    let (edge, there) = Graph.edge_at-exists g i v (omega (arith, h)) in
    let (g', done, v') =
      account_edges-IsValid f (MarkovGraph.put_at g i (f key edge)) (suc i) keys
        (put_at-IsValid g i (f key edge) v) (omega (arith, h)) in
    (g', rw (there, account_edges) done, v')

module _ {env : Env} (laws : EnvLaws env) where
  open laws use {exe_laws, map_laws}

  -- A write to an exe that keeps its key.
  put_exe-IsValid :
      (st : Stores env) (id : ℕ) (old exe : Exe)
      → IsValid st
      → ExeStore.get st.exes id ≡ some old
      → exe.key ≡ old.key
      → IsValid (record st { exes = ExeStore.put st.exes id exe })
  unfolding ExeStore.put ExeStore.get
  put_exe-IsValid st id old exe v there same = record {
    exes = ExeIndex.put-IsIndexed exe_laws st.exes v.exes id old exe there same;
    exe_known =
        λ e m h. ground (arith, v.exe_known e m, there, exe_laws.get-set st.exes.exes id exe e);
    maps = v.maps;
    exe_maps = v.exe_maps;
    markov = v.markov;
    active = v.active;
    map_known = v.map_known;
  }

  pub modify_exe-IsValid :
      (st : Stores env) (id : ℕ) (f : Exe → Exe)
      → IsValid st
      → ((exe : Exe) → (f exe).key ≡ exe.key)
      → IsValid (modify_exe st id f)
  unfolding modify_exe
  modify_exe-IsValid st id f v same = elim (Option-cases (ExeStore.get st.exes id)) [
    | inl absent ↦ rw (absent, modify_exe) v
    | inr (exe, there) ↦
        rw (there, modify_exe) (put_exe-IsValid st id exe (f exe) v there (same exe))
  ]

  -- It forgets no exe.
  get-modify_exe :
      (st : Stores env) (id : ℕ) (f : Exe → Exe) (e : ℕ)
      → ExeStore.get st.exes e ≢ none
      → ExeStore.get (modify_exe st id f).exes e ≢ none
  unfolding modify_exe ExeStore.get ExeStore.put
  get-modify_exe st id f e known = elim (Option-cases (ExeStore.get st.exes id)) [
    | inl absent ↦ ground arith
    | inr (exe, there) ↦ ground (arith, exe_laws.get-set st.exes.exes id (f exe) e)
  ]

  add_maps-IsValid :
      (st : Stores env) (delta : ModelDelta) (exe_id : ℕ) (segments : List MapSegment)
      → IsValid st
      → ExeStore.get st.exes exe_id ≢ none
      → IsValid (add_maps st delta exe_id segments).0
  unfolding add_maps ensure_map_with_flag attach_map
  add_maps-IsValid st delta exe_id [] v known = v
  add_maps-IsValid st delta exe_id (segment ∷ segments) v known =
      let with_map = Preserve.ensure_map_with_flag-IsValid laws st v segment in
      let there = (MapIndex.get-ensure_with_flag map_laws st.maps segment 0 v.maps).1 in
      add_maps-IsValid
        (attach_map (ensure_map_with_flag st segment).1 exe_id
          (ensure_map_with_flag st segment).0.0)
        _ exe_id segments
        (Preserve.attach_map-IsValid laws (ensure_map_with_flag st segment).1 with_map exe_id
          (ensure_map_with_flag st segment).0.0 known there)
        known

  module _ {P : Type 0} (dyn : Policy P) (running_paths : HashSet FilePath) (now : ℕ) where
    admit-IsValid :
        (g : Progress env P) (candidate : CandidateExe) (completeness : Completeness)
        → IsValid g.stores
        → IsValid (admit dyn running_paths now g candidate completeness).stores
    unfolding admit ensure_exe
    admit-IsValid g candidate completeness v =
        let key : ExeKey = record { path = candidate.path } in
        let with_exe = Preserve.ensure_exe-IsValid laws g.stores v key in
        let there = (ExeIndex.get-ensure exe_laws g.stores.exes key 0 v.exes).1 in
        let seen : Exe → Exe = λ exe. record exe { last_seen_time = some now } in
        add_maps-IsValid (modify_exe (ensure_exe g.stores key).1 (ensure_exe g.stores key).0 seen) _
          (ensure_exe g.stores key).0 candidate.maps
          (modify_exe-IsValid (ensure_exe g.stores key).1 (ensure_exe g.stores key).0 seen with_exe
            (λ exe. refl))
          (get-modify_exe (ensure_exe g.stores key).1 (ensure_exe g.stores key).0 seen
            (ensure_exe g.stores key).0 there)

    follow-IsValid :
        (g : Progress env P) (candidate : CandidateExe) (decision : AdmissionDecision)
        → IsValid g.stores
        → IsValid (follow dyn running_paths now g candidate decision).stores
    unfolding follow
    follow-IsValid g candidate (accept completeness) v = admit-IsValid g candidate completeness v
    follow-IsValid g candidate (reject reason) v = v
    follow-IsValid g candidate defer v = v

    consider-IsValid :
        (g : Progress env P) (candidate : CandidateExe)
        → IsValid g.stores
        → IsValid (consider dyn running_paths now g candidate).stores
    unfolding consider
    consider-IsValid g candidate v =
        follow-IsValid (record g { policy = (dyn.decide g.policy candidate).1 }) candidate
          (dyn.decide g.policy candidate).0 v

    pub consider_all-IsValid :
        (g : Progress env P) (candidates : HashMap FilePath CandidateExe)
        → IsValid g.stores
        → IsValid (consider_all dyn running_paths now g candidates).stores
    unfolding consider_all
    consider_all-IsValid g [] v = v
    consider_all-IsValid g ((path, candidate) ∷ candidates) v =
        consider_all-IsValid (consider dyn running_paths now g candidate) candidates
          (consider-IsValid g candidate v)

    set_running-IsValid :
        (g : Progress env P) (id : ℕ)
        → IsValid g.stores
        → IsValid (set_running dyn running_paths now g id).stores
    unfolding set_running
    set_running-IsValid g id v = elim (Option-cases (ExeStore.get g.stores.exes id)) [
      | inl absent ↦ rw (absent, set_running) v
      | inr (exe, there) ↦ rw (there, set_running) (put_exe-IsValid g.stores id exe _ v there refl)
    ]

    pub set_running_all-IsValid :
        (g : Progress env P) (ids : List ℕ)
        → IsValid g.stores
        → IsValid (set_running_all dyn running_paths now g ids).stores
    unfolding set_running_all
    set_running_all-IsValid g [] v = v
    set_running_all-IsValid g (id ∷ ids) v =
        set_running_all-IsValid (set_running dyn running_paths now g id) ids
          (set_running-IsValid g id v)

  connect-IsValid :
      (now : ℕ) (s : Stores env × ModelDelta) (a b : ℕ)
      → IsValid s.0
      → IsValid (connect now s a b).0
  unfolding connect
  connect-IsValid now (st, delta) a b v = Preserve.ensure_markov_edge-IsValid laws st v a b now _

  connect_with-IsValid :
      (now : ℕ) (s : Stores env × ModelDelta) (a : ℕ) (bs : List ℕ)
      → IsValid s.0
      → IsValid (connect_with now s a bs).0
  unfolding connect_with
  connect_with-IsValid now s a [] v = v
  connect_with-IsValid now s a (b ∷ bs) v =
      connect_with-IsValid now (connect now s a b) a bs (connect-IsValid now s a b v)

  pub connect_all-IsValid :
      (now : ℕ) (s : Stores env × ModelDelta) (ids : List ℕ)
      → IsValid s.0
      → IsValid (connect_all now s ids).0
  unfolding connect_all
  connect_all-IsValid now s [] v = v
  connect_all-IsValid now s (a ∷ rest) v =
      connect_all-IsValid now (connect_with now s a rest) rest (connect_with-IsValid now s a rest v)

  pub add_period-IsValid :
      (period : ℕ) (st : Stores env) (ids : List ℕ)
      → IsValid st
      → IsValid (add_period period st ids)
  unfolding add_period
  add_period-IsValid period st [] v = v
  add_period-IsValid period st (id ∷ ids) v =
      add_period-IsValid period (modify_exe st id (lengthen period)) ids
        (modify_exe-IsValid st id (lengthen period) v (key-lengthen period))
