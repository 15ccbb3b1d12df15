-- ===== src/Engine/Run/Shutdown.antt =====
-- What holds when `run_until` of crates/orchestrator/src/engine.rs returns.
use preload_ng.Prelude.{ℕ, ◌≡◌, refl, subst, ◌≢◌, ◌⊎◌, Option, none, some, if◌then◌else◌}
use preload_ng.Error.{Outcome, ok, panic}
use preload_ng.Prefetch.Planner.{PrefetchPlan}
use preload_ng.Prelude.Options.{IfSome}
use preload_ng.Stores.Model.{Env, EnvLaws}
use preload_ng.Stores.Invariant.{IsValid}
use preload_ng.Engine.Tick.{EngineConfig, Services, PreloadEngine, ControlEvent, reload, save}
use preload_ng.Engine.Tick.Cycle.{ServicesLaws}
use preload_ng.Engine.Run.{
  RunState, selecting, returned, StepTo, drops, cancels, cancels_dropped, controls,
  controls_dropped, ticks, wakes, cancels_sleep, StepsTo, done, after,
}
use preload_ng.Engine.Run.Cancelled.{cancelled_by, cancelled_from, IsExplained, StepTo-IsExplained}
use preload_ng.Engine.Run.Kept.{RunLaws, IsGood, begin_tick-IsGood}
use preload_ng.Engine.Run.Fine.{IsFine, shut_down-IsFine, control-IsFine, run_tick-IsFine}

module _ {env : Env} {World : Type 0} (laws : EnvLaws env) (Sent : ControlEvent env World → Type 0)
    (Stops : World → PrefetchPlan → World → Type 0)
    (lawful : (config : EngineConfig) (bundle : Services env World)
      → Sent (reload config bundle)
      → ServicesLaws bundle) where
  StepTo-IsFine : {s s' : RunState env World} → StepTo Sent Stops s s' → IsFine s → IsFine s'
  StepTo-IsFine (drops {engine} {begun} {world} begins _) g =
      subst (IfSome (λ (b, plan, world1). IsGood b)) begins (begin_tick-IsGood laws engine world g)
  StepTo-IsFine (cancels {engine} {world}) g = shut_down-IsFine engine world g
  StepTo-IsFine (cancels_dropped {engine} {world}) g = shut_down-IsFine engine world g
  StepTo-IsFine (controls {engine} {world} {last_save} {tick_start} event at sent) g =
      control-IsFine engine world event last_save tick_start at g
        (λ config bundle e. lawful config bundle (subst Sent e sent))
  StepTo-IsFine (controls_dropped {engine} {world} {last_save} {tick_start} event at sent) g =
      control-IsFine engine world event last_save tick_start at g
        (λ config bundle e. lawful config bundle (subst Sent e sent))
  StepTo-IsFine (ticks {engine} {world} {last_save} {tick_start} at) g =
      run_tick-IsFine laws engine world last_save tick_start at g
  StepTo-IsFine (wakes next_start) g = g
  StepTo-IsFine (cancels_sleep {engine} {world}) g = shut_down-IsFine engine world g

  StepsTo-IsExplained :
      {s s' : RunState env World} (last : Option (PreloadEngine env World × World))
      (steps : StepsTo Sent Stops s s')
      → IsFine s
      → IsExplained last s
      → IsFine s' × IsExplained (cancelled_from last steps) s'
  unfolding cancelled_from
  StepsTo-IsExplained last done g e = (g, e)
  StepsTo-IsExplained last (after one more) g e =
      StepsTo-IsExplained (cancelled_by last one) more (StepTo-IsFine one g)
        (StepTo-IsExplained last one g e)

  -- The loop starts from valid stores with services that do not panic, and so are the services of
  -- every reload. Whatever cycles, dropped cycles, control events, saves and sleeps come first: when
  -- it returns, the stores are valid and it is not by a panic. Either it returns an error, and then
  -- it was not cancelled, or it returns without one, and then it was cancelled with the engine that
  -- it leaves, and has done nothing after that but a save of the stores as they are then if the
  -- configuration asks for one.
  pub run_until-IsShutDown :
      (start engine : PreloadEngine env World) (world world' : World) (last_save tick_start : ℕ)
      (answer : Outcome (Unit {0}))
      → IsValid start.stores
      → RunLaws start.services
      → (steps : StepsTo Sent Stops
          (selecting start world last_save tick_start)
          (returned answer engine world'))
      → IsValid engine.stores
        × (answer ≢ panic)
        × (((answer ≢ ok tt) × (cancelled_from none steps ≡ none))
            ⊎ ((before : World) × (answer ≡ ok tt)
                × (cancelled_from none steps ≡ some (engine, before))
                × (world'
                    ≡ (if engine.config.save_on_shutdown then (save engine before).1 else before))))
  run_until-IsShutDown start engine world world' last_save tick_start answer v services steps =
      let ((good, returns), why) = StepsTo-IsExplained none steps (v, services) refl in
      (good.0, returns, why)
