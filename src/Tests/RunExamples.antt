-- ===== src/Tests/RunExamples.antt =====
-- The theorem about the engine's loop, at a run of a few steps.
use preload_ng.Prelude.{◌≡◌, refl, ◌≢◌, ◌⊎◌, false, none, some, if◌then◌else◌}
use preload_ng.Error.{Outcome, ok, panic}
use preload_ng.Prefetch.Planner.{PrefetchPlan}
use preload_ng.Stores.Invariant.{IsValid}
use preload_ng.Engine.Tick.{
  PreloadEngine, ControlEvent, save_now, no_plan, observe, predict_next, plan_next, save,
}
use preload_ng.Engine.Run.{
  selecting, returned, begin_tick, await_after, await_prefetch, ignored, shut_down, drops,
  cancels_dropped, StepsTo, done, after,
}
use preload_ng.Engine.Run.Kept.{RunLaws}
use preload_ng.Engine.Run.Cancelled.{cancelled_from}
use preload_ng.Engine.Run.Shutdown
use preload_ng.Tests.Instances.{env, env_laws}
use preload_ng.Tests.Samples.{one_map_of_exe-IsValid}
use preload_ng.Tests.CycleExamples.{services, services-ServicesLaws, engine}

-- An engine that neither scans nor predicts.
abbrev idle : PreloadEngine env (Unit)
idle = record engine { config = record engine.config { doscan = false; dopredict = false } }

abbrev begun : PreloadEngine env (Unit)
begun = record idle { scan_id = 1 }

abbrev Sent : ControlEvent env (Unit) → Type 0
Sent event = event ≡ save_now

abbrev Stops : Unit {0} → PrefetchPlan → Unit {0} → Type 0
Stops _ _ _ = Unit {0}

services-RunLaws : RunLaws services
services-RunLaws = record { cycle = services-ServicesLaws; save_returns = λ w s h. cc }

begins : begin_tick idle tt ≡ some (begun, no_plan, tt)
unfolding begin_tick await_after await_prefetch observe predict_next plan_next
begins = refl

abbrev answer : Outcome (Unit {0})
answer = ignored (save begun tt).0

-- A cycle begins, it is dropped in its prefetch, and the loop shuts down.
steps : StepsTo Sent Stops (selecting idle tt 0 0) (returned answer begun (save begun tt).1)
unfolding shut_down
steps = after (drops begins tt) (after cancels_dropped done)

run_until-IsShutDown_example :
    IsValid begun.stores
    × (answer ≢ panic)
    × (((answer ≢ ok tt) × (cancelled_from none steps ≡ none))
        ⊎ ((before : Unit {0}) × (answer ≡ ok tt)
            × (cancelled_from none steps ≡ some (begun, before))
            × ((save begun tt).1
                ≡ (if begun.config.save_on_shutdown then (save begun before).1 else before))))
run_until-IsShutDown_example =
    Shutdown.run_until-IsShutDown env_laws Sent Stops (λ config bundle h. cc) idle begun tt
      (save begun tt).1 0 0 answer one_map_of_exe-IsValid services-RunLaws steps
