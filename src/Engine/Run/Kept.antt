-- ===== src/Engine/Run/Kept.antt =====
-- What `tick` and a reload of crates/orchestrator/src/engine.rs keep: valid stores and lawful services.
use preload_ng.Prelude.{◌≡◌, refl, ◌≢◌, Option, none, some}
use preload_ng.Error.{Outcome, ok, err, panic}
use preload_ng.Observation.Event.{Observation}
use preload_ng.Observation.ModelUpdater.{ModelDelta, saturating_add}
use preload_ng.Prediction.{Prediction}
use preload_ng.Prelude.Options.{IfSome}
use preload_ng.Stores.Model.{Env, EnvLaws}
use preload_ng.Stores.Invariant.{IsValid}
use preload_ng.Engine.Snapshot.{StoresSnapshot}
use preload_ng.Engine.Tick.{
  Services, PreloadEngine, observe, predict_next, predict_and_prefetch, prefetch_next,
  after_observation, tick, reloaded,
}
use preload_ng.Engine.Tick.Cycle.{ServicesLaws, observe-IsValid}
use preload_ng.Engine.Run.{begin_tick, await_after, await_prefetch}

-- What the loop relies on: the laws of the cycle, and a repository that does not panic.
pub record RunLaws {env : Env} {World : Type 0} (services : Services env World) : Type 0 where
  pub cycle : ServicesLaws services
  pub save_returns : (w : World) (s : StoresSnapshot env.floats) → (services.save w s).0 ≢ panic

module _ {env : Env} {World : Type 0} where
  abbrev pub IsGood : PreloadEngine env World → Type 0
  IsGood engine = IsValid engine.stores × RunLaws engine.services

  pub reloaded-RunLaws :
      (old new : Services env World) → RunLaws old → ServicesLaws new → RunLaws (reloaded old new)
  unfolding reloaded
  reloaded-RunLaws old new laws laws' = record {
    cycle = record {
      scan_returns = laws.cycle.scan_returns;
      apply_returns = laws'.apply_returns;
      predict_returns = laws'.predict_returns;
    };
    save_returns = laws.save_returns;
  }

  pub await_after-IsGood :
      (engine : PreloadEngine env World) (world : World)
      (answer : Outcome (Observation × ModelDelta))
      → IsGood engine
      → IfSome (λ (begun, plan, world1). IsGood begun) (await_after engine world answer)
  unfolding await_after await_prefetch
  await_after-IsGood engine world (ok seen) g =
      await_prefetch-IsGood engine world seen.0 (predict_next engine engine.stores) g
    where
      await_prefetch-IsGood :
          (engine : PreloadEngine env World) (world : World) (observation : Observation)
          (p : Option (Prediction env.floats))
          → IsGood engine
          → IfSome
              (λ (begun, plan, world1). IsGood begun)
              (await_prefetch engine world observation p)
      await_prefetch-IsGood engine world observation none g = tt
      await_prefetch-IsGood engine world observation (some prediction) g = g
  await_after-IsGood engine world (err _) g = tt
  await_after-IsGood engine world panic g = tt

  -- A cycle keeps the services.
  predict_and_prefetch-services :
      (engine : PreloadEngine env World) (world : World) (seen : Observation × ModelDelta)
      (p : Option (Prediction env.floats))
      → (predict_and_prefetch engine world seen p).1.0.services ≡ engine.services
  unfolding predict_and_prefetch prefetch_next
  predict_and_prefetch-services engine world seen none = refl
  predict_and_prefetch-services engine world seen (some prediction) = refl

  after_observation-services :
      (engine : PreloadEngine env World) (world : World)
      (answer : Outcome (Observation × ModelDelta))
      → (after_observation engine world answer).1.0.services ≡ engine.services
  unfolding after_observation
  after_observation-services engine world (ok seen) =
      predict_and_prefetch-services engine world seen (predict_next engine engine.stores)
  after_observation-services engine world (err _) = refl
  after_observation-services engine world panic = refl

  pub tick-services :
      (engine : PreloadEngine env World) (world : World)
      → (tick engine world).1.0.services ≡ engine.services
  unfolding tick
  tick-services engine world =
      let scan_id = saturating_add engine.scan_id 1 in
      let seen = observe engine world scan_id in
      after_observation-services (record engine { scan_id = scan_id; stores = seen.1.0 }) seen.1.1
        seen.0

  pub begin_tick-IsGood :
      (laws : EnvLaws env) (engine : PreloadEngine env World) (world : World)
      → IsGood engine
      → IfSome (λ (begun, plan, world1). IsGood begun) (begin_tick engine world)
  unfolding begin_tick
  begin_tick-IsGood laws engine world (v, services) =
      let scan_id = saturating_add engine.scan_id 1 in
      let (returns, valid) = observe-IsValid laws engine services.cycle world scan_id v in
      let seen = observe engine world scan_id in
      await_after-IsGood (record engine { scan_id = scan_id; stores = seen.1.0 }) seen.1.1 seen.0
        (valid, services)
