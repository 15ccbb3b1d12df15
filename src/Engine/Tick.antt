-- ===== src/Engine/Tick.antt =====
-- crates/orchestrator/src/engine.rs: the services, one cycle, loading, saving and reloading.
pub mod Purge
pub mod Cycle
pub mod Defaults
use preload_ng.Prelude.{
  ℕ, ◌-◌, ◌/◌, ap, ite, Bool, true, false, Option, none, some, List, [], ◌∷◌, map, if◌then◌else◌,
}
use preload_ng.Domain.{FilePath, MapKey, MapSegment, MemStat, segment_key}
use preload_ng.Error.{Outcome, ok, err, panic, ◌>>=◌}
use preload_ng.Floats.{Floats}
use preload_ng.Observation.Event.{ObservationEvent, Observation, obs_begin, mem_stat, obs_end}
use preload_ng.Observation.ModelUpdater.{Policy, ModelDelta, no_delta, saturating_add}
use preload_ng.Prediction.{Prediction, PredictionSummary, summarize}
use preload_ng.Prefetch.Planner.{PrefetchPlan}
use preload_ng.Prefetch.Report.{PrefetchReport}
use preload_ng.Stores.MapStore
use preload_ng.Stores.Model.{Env, Stores, empty_stores, remove_map_by_key}
use preload_ng.Engine.Snapshot.{StoresSnapshot, snapshot_from_stores, stores_from_snapshot}

-- The fields of the configuration that the engine reads.
pub record EngineConfig : Type 0 where
  pub doscan : Bool
  pub dopredict : Bool
  pub active_window : ℕ
  pub cycle : ℕ
  pub save_on_shutdown : Bool
  pub autosave_interval : Option ℕ
  pub autosave : ℕ
  pub state_path : Option FilePath

-- The services behind the engine's trait objects, over a state `World` of all that they touch: the
-- policy's cache, the system and the database.
pub record Services (env : Env) (World : Type 0) : Type 0 where
  pub scan : World → ℕ → ℕ → Outcome Observation × World
  pub admission : Policy World
  -- the updater's answer, and the stores and the world that it leaves
  pub apply : World → Stores env → Observation → Outcome ModelDelta × (Stores env × World)
  pub predict : Stores env → Option (Prediction env.floats)
  pub plan : Prediction env.floats → Stores env → MemStat → PrefetchPlan
  pub execute : World → PrefetchPlan → Stores env → PrefetchReport × World
  pub load : World → Outcome (StoresSnapshot env.floats) × World
  pub save : World → StoresSnapshot env.floats → Outcome (Unit) × World
  -- `Path::exists` and `SystemTime::now`
  pub exists : World → FilePath → Bool
  pub system_time : World → ℕ

pub record PreloadEngine (env : Env) (World : Type 0) : Type 0 where
  pub config : EngineConfig
  pub services : Services env World
  pub stores : Stores env
  pub scan_id : ℕ

pub record TickReport : Type 0 where
  pub scan_id : ℕ
  pub model_delta : ModelDelta
  pub prediction : PredictionSummary
  pub prefetch : PrefetchReport
  pub memstat : Option MemStat

-- The keys of the maps that the policy denies.
unfoldable pub denied_keys : (FilePath → Bool) → List (ℕ × MapSegment) → List MapKey
denied_keys allowed [] = []
denied_keys allowed ((_, segment) ∷ segments) =
    let rest = denied_keys allowed segments in
    if allowed segment.path then rest else segment_key segment ∷ rest

-- The observation of a cycle without a scan.
abbrev pub no_scan : ℕ → ℕ → Observation
no_scan now scan_id = obs_begin now scan_id ∷ obs_end now scan_id [] ∷ []

-- The first memory event.
unfoldable pub find_memstat : Observation → Option MemStat
find_memstat [] = none
find_memstat (mem_stat mem ∷ events) = some mem
find_memstat (event ∷ events) = find_memstat events

abbrev pub no_plan : PrefetchPlan
no_plan = record { maps = []; total_bytes = 0; budget_bytes = 0 }

abbrev pub no_prediction : {fl : Floats} → Prediction fl
no_prediction = record { exe_scores = []; map_scores = [] }

pub data ControlEvent (env : Env) (World : Type 0) : Type 0 where
  reload : EngineConfig → Services env World → ControlEvent env World
  dump_status save_now : ControlEvent env World

module _ {env : Env} where
  unfoldable pub remove_all : Stores env → List MapKey → Stores env
  remove_all st [] = st
  remove_all st (key ∷ keys) = remove_all (remove_map_by_key st key) keys

  unfoldable pub purge_denied : (FilePath → Bool) → Stores env → Stores env
  purge_denied allowed st = remove_all st (denied_keys allowed (MapStore.iter st.maps))

  -- The maps of the failed keys whose file is gone are removed.
  unfoldable pub purge_stale : (FilePath → Bool) → Stores env → List MapKey → Stores env
  purge_stale exists st [] = st
  purge_stale exists st (key ∷ keys) =
      purge_stale exists (if exists key.path then st else remove_map_by_key st key) keys

module _ {env : Env} {World : Type 0} where
  -- `PreloadEngine::new`.
  unfoldable pub new_engine : EngineConfig → Services env World → PreloadEngine env World
  new_engine config services = record {
    config = config;
    services = services;
    stores = empty_stores;
    scan_id = 0;
  }

  unfoldable pub load :
      EngineConfig → Services env World → World → Outcome (PreloadEngine env World) × World
  load config services world =
      let (loaded, world') = services.load world in
      (
        loaded >>= λ snapshot. stores_from_snapshot env snapshot config.active_window >>= λ st.
            ok (record {
              config = config;
              services = services;
              stores = purge_denied (services.admission.allow_map world') st;
              scan_id = 0;
            }),
        world',
      )

  -- The update of the model from what was scanned.
  unfoldable pub update_model :
      PreloadEngine env World
      → World
      → Outcome Observation
      → Outcome (Observation × ModelDelta) × (Stores env × World)
  update_model engine world (ok observation) =
      let (answer, after) = engine.services.apply world engine.stores observation in
      ((answer >>= λ delta. ok (observation, delta)), after)
  update_model engine world (err e) = (err e, (engine.stores, world))
  update_model engine world panic = (panic, (engine.stores, world))

  unfoldable pub observe :
      PreloadEngine env World
      → World
      → ℕ
      → Outcome (Observation × ModelDelta) × (Stores env × World)
  observe engine world scan_id =
      let (seen, world1) = engine.services.scan world engine.stores.model_time scan_id in
      if engine.config.doscan
      then update_model engine world1 seen
      else (ok (no_scan engine.stores.model_time scan_id, no_delta), (engine.stores, world))

  unfoldable pub predict_next :
      PreloadEngine env World → Stores env → Option (Prediction env.floats)
  predict_next engine st =
      if engine.config.dopredict then engine.services.predict st else some no_prediction

  unfoldable pub plan_next :
      PreloadEngine env World → Stores env → Prediction env.floats → Option MemStat → PrefetchPlan
  plan_next engine st prediction memstat =
      if engine.config.dopredict
      then elim memstat [ none ↦ no_plan | some mem ↦ engine.services.plan prediction st mem ]
      else no_plan

  -- The prefetch, the removal of stale maps and the step of the model time.
  unfoldable pub prefetch_next :
      PreloadEngine env World
      → World
      → PrefetchPlan
      → PrefetchReport × (PreloadEngine env World × World)
  prefetch_next engine world plan =
      let (report, world1) = engine.services.execute world plan engine.stores in
      let left : Stores env =
        purge_stale (engine.services.exists world1) engine.stores report.failures in
      (
        report,
        (
          record engine {
            stores = record left {
              model_time = saturating_add left.model_time engine.config.cycle;
            };
          },
          world1,
        ),
      )

  -- The cycle after the update of the model, with the prediction.
  unfoldable pub predict_and_prefetch :
      PreloadEngine env World
      → World
      → Observation × ModelDelta
      → Option (Prediction env.floats)
      → Outcome TickReport × (PreloadEngine env World × World)
  predict_and_prefetch engine world seen none = (panic, (engine, world))
  predict_and_prefetch engine world seen (some prediction) =
      let memstat = find_memstat seen.0 in
      let (report, left) =
        prefetch_next engine world (plan_next engine engine.stores prediction memstat) in
      (
        ok (record {
          scan_id = engine.scan_id;
          model_delta = seen.1;
          prediction = summarize prediction;
          prefetch = report;
          memstat = memstat;
        }),
        left,
      )

  unfoldable pub after_observation :
      PreloadEngine env World
      → World
      → Outcome (Observation × ModelDelta)
      → Outcome TickReport × (PreloadEngine env World × World)
  after_observation engine world (ok seen) =
      predict_and_prefetch engine world seen (predict_next engine engine.stores)
  after_observation engine world (err e) = (err e, (engine, world))
  after_observation engine world panic = (panic, (engine, world))

  -- An error ends the cycle and leaves what was changed before it.
  unfoldable pub tick :
      PreloadEngine env World → World → Outcome TickReport × (PreloadEngine env World × World)
  tick engine world =
      let scan_id = saturating_add engine.scan_id 1 in
      let (answer, after) = observe engine world scan_id in
      after_observation (record engine { scan_id = scan_id; stores = after.0 }) after.1 answer

  -- `PreloadEngine::save`.
  unfoldable pub save : PreloadEngine env World → World → Outcome (Unit) × World
  save engine world =
      elim (snapshot_from_stores env (engine.services.system_time world) engine.stores) [
        | none ↦ (panic, world)
        | some snapshot ↦ engine.services.save world snapshot
      ]

  -- The services that a reload replaces.
  unfoldable pub reloaded : Services env World → Services env World → Services env World
  reloaded old bundle = record old {
    admission = bundle.admission;
    apply = bundle.apply;
    predict = bundle.predict;
    plan = bundle.plan;
    execute = bundle.execute;
  }

  unfoldable pub apply_reload :
      PreloadEngine env World → EngineConfig → Services env World → PreloadEngine env World
  apply_reload engine config bundle = record engine {
    config = record config { state_path = engine.config.state_path };
    services = reloaded engine.services bundle;
  }

  -- The event leaves an engine and a world; the last component tells whether the state was saved.
  unfoldable pub handle_control :
      PreloadEngine env World
      → World
      → ControlEvent env World
      → Outcome Bool × (PreloadEngine env World × World)
  handle_control engine world (reload config bundle) =
      (ok false, (apply_reload engine config bundle, world))
  handle_control engine world dump_status = (ok false, (engine, world))
  handle_control engine world save_now =
      let (answer, world1) = save engine world in ((answer >>= λ _. ok true), (engine, world1))
