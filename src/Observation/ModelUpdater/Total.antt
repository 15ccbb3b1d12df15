-- ===== src/Observation/ModelUpdater/Total.antt =====
-- The update always gives an answer, and the answer is valid.
use preload_ng.Prelude.{
  ℕ, ◌-◌, ◌≡◌, refl, ◌∙◌, inl, inr, some, [], ◌∷◌, map, arith, ltb, Bool-cases,
}
use preload_ng.Prelude.HashMap as Map
use preload_ng.Prelude.HashMap.{HashSet}
use preload_ng.Observation.Event.{Observation, obs_begin, exe_seen, map_seen, mem_stat, obs_end}
use preload_ng.Stores.ActiveSet
use preload_ng.Stores.ActiveSet.Window
use preload_ng.Stores.ExeStore
use preload_ng.Stores.MarkovGraph.Prune
use preload_ng.Stores.Invariant.{IsValid}
use preload_ng.Stores.Model.{Env, EnvLaws, Stores}
use preload_ng.Observation.ModelUpdater.Defs.{
  Policy, ModelUpdater, ModelDelta, Progress, no_delta, gather_event, gather, Gathered,
  consider_all, set_running_all, connect_all, count_period, account_edge, account, finish, apply,
}
use preload_ng.Observation.ModelUpdater.Preserves

-- The time of the last begin event of the observation, and the given time without one.
unfoldable pub last_begin : ℕ → Observation → ℕ
last_begin time [] = time
last_begin time (obs_begin t scan_id ∷ events) = last_begin t events
last_begin time (exe_seen path pid ∷ events) = last_begin time events
last_begin time (map_seen exe_path segment ∷ events) = last_begin time events
last_begin time (mem_stat mem ∷ events) = last_begin time events
last_begin time (obs_end t scan_id warnings ∷ events) = last_begin time events

-- The loop over the events ends with that time.
gather-last_begin :
    {P : Type 0} (dyn : Policy P) (policy : P) (g : Gathered) (events : Observation)
    → (gather dyn policy g events).now ≡ last_begin g.now events
unfolding gather gather_event last_begin
gather-last_begin dyn policy g [] = refl
gather-last_begin dyn policy g (obs_begin t scan_id ∷ events) =
    gather-last_begin dyn policy (gather_event dyn policy g (obs_begin t scan_id)) events
gather-last_begin dyn policy g (exe_seen path pid ∷ events) =
    gather-last_begin dyn policy (gather_event dyn policy g (exe_seen path pid)) events
gather-last_begin dyn policy g (map_seen exe_path segment ∷ events) =
    gather-last_begin dyn policy (gather_event dyn policy g (map_seen exe_path segment)) events
gather-last_begin dyn policy g (mem_stat mem ∷ events) = gather-last_begin dyn policy g events
gather-last_begin dyn policy g (obs_end t scan_id warnings ∷ events) =
    gather-last_begin dyn policy g events

module _ {env : Env} (laws : EnvLaws env) where
  count_period-IsValid :
      (period : ℕ) (st : Stores env) → IsValid st → IsValid (count_period period st)
  unfolding count_period
  count_period-IsValid period st v = elim (Bool-cases (ltb 0 period)) [
    | inl some_time ↦
        rw (some_time, count_period)
          (Preserves.add_period-IsValid laws period st (map (λ e. e.0) (ExeStore.iter st.exes)) v)
    | inr no_time ↦ rw (no_time, count_period) v
  ]

  account_lem :
      (updater : ModelUpdater env.floats) (now : ℕ) (st : Stores env)
      → IsValid st
      → (r : Stores env) × (account updater now st ≡ some r)
        × IsValid r
        × (r.model_time ≡ now)
        × (r.last_accounting_time ≡ now)
  unfolding account
  account_lem updater now st v =
      let period = now - st.last_accounting_time in
      let counted = count_period period st in
      let v1 = count_period-IsValid period st v in
      let (markov, done, valid) =
        Preserves.account_edges-IsValid (account_edge counted period now updater.decay)
          counted.markov 0 counted.markov.keys v1.markov (omega arith) in
      (
        record counted { markov = markov; last_accounting_time = now; model_time = now },
        rw (done, account) refl,
        record {
          exes = v1.exes;
          maps = v1.maps;
          exe_maps = v1.exe_maps;
          markov = valid;
          active = v1.active;
          exe_known = v1.exe_known;
          map_known = v1.map_known;
        },
        refl,
        refl,
      )

  finish_lem :
      (updater : ModelUpdater env.floats) (now : ℕ) (st : Stores env) (delta : ModelDelta)
      (active_exe_ids : HashSet ℕ)
      → IsValid st
      → (r : Stores env × ModelDelta) × (finish updater now st delta active_exe_ids ≡ some r)
        × IsValid r.0
        × (r.0.model_time ≡ now)
        × (r.0.last_accounting_time ≡ now)
  unfolding finish
  finish_lem updater now st delta active_exe_ids v =
      let seen = ActiveSet.update st.active (Map.keys active_exe_ids) now in
      let kept = (ActiveSet.prune seen now updater.active_window).1 in
      let active = ActiveSet.exes kept in
      let (pruned, e, p) = Prune.prune_inactive_lem active st.markov v.markov in
      let with_active : Stores env = record st { active = kept; markov = pruned } in
      let v1 : IsValid with_active = record {
        exes = v.exes;
        maps = v.maps;
        exe_maps = v.exe_maps;
        markov = p.valid;
        active =
            Window.prune-IsMap seen now updater.active_window
              (Window.update-IsMap st.active (Map.keys active_exe_ids) now v.active);
        exe_known = v.exe_known;
        map_known = v.map_known;
      } in
      let connected = connect_all now (with_active, delta) (Map.keys active) in
      let v2 = Preserves.connect_all-IsValid laws now (with_active, delta) (Map.keys active) v1 in
      let (accounted, done, v3, t1, t2) = account_lem updater now connected.0 v2 in
      ((accounted, connected.1), rw (e, finish, done) refl, v3, t1, t2)

  -- On valid stores `apply` always gives an answer, so it never panics; its stores are valid, and
  -- both of their times are the time of the last begin event, or the old model time without one.
  pub apply-IsValid :
      {P : Type 0} (updater : ModelUpdater env.floats) (dyn : Policy P) (policy : P)
      (st : Stores env) (observation : Observation)
      → IsValid st
      → (r : (Stores env × ModelDelta) × P) × (apply updater dyn policy st observation ≡ some r)
        × IsValid r.0.0
        × (r.0.0.model_time ≡ last_begin st.model_time observation)
        × (r.0.0.last_accounting_time ≡ last_begin st.model_time observation)
  unfolding apply
  apply-IsValid updater dyn policy st observation v =
      let seen : Gathered =
        gather dyn policy (record { candidates = []; running_paths = []; now = st.model_time })
          observation in
      let start : Progress env _ = record {
        stores = st;
        policy = policy;
        delta = no_delta;
        active_exe_ids = [];
      } in
      let considered = consider_all dyn seen.running_paths seen.now start seen.candidates in
      let v1 =
        Preserves.consider_all-IsValid laws dyn seen.running_paths seen.now start seen.candidates
          v in
      let ids = map (λ e. e.0) (ExeStore.iter considered.stores.exes) in
      let ran = set_running_all dyn seen.running_paths seen.now considered ids in
      let v2 =
        Preserves.set_running_all-IsValid laws dyn seen.running_paths seen.now considered ids v1 in
      let (r, done, v3, t1, t2) =
        finish_lem updater seen.now ran.stores ran.delta ran.active_exe_ids v2 in
      let begun =
        gather-last_begin dyn policy
          (record { candidates = []; running_paths = []; now = st.model_time }) observation in
      ((r, ran.policy), rw (done, apply) refl, v3, t1 ∙ begun, t2 ∙ begun)
