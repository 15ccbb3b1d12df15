-- ===== src/Engine/Run.antt =====
-- `run_until` of crates/orchestrator/src/engine.rs as the steps of its loop. The `select!` may begin a
-- tick, which stops at its one await, the prefetch, and then be decided by the cancellation or by a
-- control event: the tick is dropped there, and what it had changed stays.
pub mod Saved
pub mod Kept
pub mod Fine
pub mod Cancelled
pub mod Shutdown
use preload_ng.Prelude.{
  ℕ, ◌-◌, ◌*◌, ◌/◌, ◌≡◌, Bool, true, false, ◌&&◌, not, Option, none, some, [], ltb, leb,
  if◌then◌else◌,
}
use preload_ng.Error.{Error, Outcome, ok, err, panic}
use preload_ng.Observation.ModelUpdater.{ModelDelta, saturating_add}
use preload_ng.Observation.Event.{Observation}
use preload_ng.Prediction.{Prediction}
use preload_ng.Prefetch.Planner.{PrefetchPlan}
use preload_ng.Stores.Model.{Env}
use preload_ng.Engine.Tick.{
  EngineConfig, PreloadEngine, TickReport, ControlEvent, find_memstat, observe, predict_next,
  plan_next, tick, save, handle_control,
}

-- Instants are in nanoseconds, the durations of the configuration in seconds.
abbrev pub nanos : ℕ → ℕ
nanos seconds = seconds * 1_000_000_000

-- The instants that the clock shows in one round: when a control event saved, when the autosave was
-- considered, when it was done, when the rest of the cycle was computed, when the next round began.
pub record Instants : Type 0 where
  pub controlled : ℕ
  pub considered : ℕ
  pub autosaved : ℕ
  pub finished : ℕ
  pub next_start : ℕ

abbrev pub autosave_of : EngineConfig → ℕ
autosave_of config = elim config.autosave_interval [
  | none ↦ config.autosave
  | some interval ↦ interval
]

unfoldable pub autosave_due : EngineConfig → ℕ → ℕ → Bool
autosave_due config last_save now =
    let autosave = autosave_of config in ltb 0 autosave && leb (nanos autosave) (now - last_save)

-- Where the loop stands: in its `select!`, there after a tick was dropped, in the sleep at the end of
-- a cycle, or returned. `last_save` is the engine's field, `tick_start` the loop's variable.
pub data RunState (env : Env) (World : Type 0) : Type 0 where
  selecting : PreloadEngine env World → World → (last_save tick_start : ℕ) → RunState env World
  dropped : PreloadEngine env World → World → (last_save tick_start : ℕ) → RunState env World
  sleeping : PreloadEngine env World → World → (last_save : ℕ) → RunState env World
  returned : Outcome (Unit {0}) → PreloadEngine env World → World → RunState env World

-- The result of the save at the end is not looked at; only its panic is one of the loop.
abbrev pub ignored : Outcome (Unit {0}) → Outcome (Unit {0})
ignored (ok _) = ok tt
ignored (err _) = ok tt
ignored panic = panic

module _ {env : Env} {World : Type 0} where
  -- The tick at its await, once the prediction is there.
  unfoldable pub await_prefetch :
      PreloadEngine env World
      → World
      → Observation
      → Option (Prediction env.floats)
      → Option (PreloadEngine env World × PrefetchPlan × World)
  await_prefetch engine world observation none = none
  await_prefetch engine world observation (some prediction) =
      some (engine, plan_next engine engine.stores prediction (find_memstat observation), world)

  unfoldable pub await_after :
      PreloadEngine env World
      → World
      → Outcome (Observation × ModelDelta)
      → Option (PreloadEngine env World × PrefetchPlan × World)
  await_after engine world (ok seen) =
      await_prefetch engine world seen.0 (predict_next engine engine.stores)
  await_after engine world (err _) = none
  await_after engine world panic = none

  -- A tick up to the await of the prefetch, if it comes there: the engine, the plan and the world.
  unfoldable pub begin_tick :
      PreloadEngine env World → World → Option (PreloadEngine env World × PrefetchPlan × World)
  begin_tick engine world =
      let scan_id = saturating_add engine.scan_id 1 in
      let (answer, after) = observe engine world scan_id in
      await_after (record engine { scan_id = scan_id; stores = after.0 }) after.1 answer

  -- The end of a round: a cycle that ticked sleeps for what is left of it.
  unfoldable pub next_round :
      PreloadEngine env World → World → ℕ → ℕ → Bool → Instants → RunState env World
  next_round engine world last_save tick_start did_tick at =
      if did_tick && ltb (at.finished - tick_start) (nanos engine.config.cycle)
      then sleeping engine world last_save
      else selecting engine world last_save at.next_start

  -- After an autosave.
  unfoldable pub autosaved :
      PreloadEngine env World
      → Outcome (Unit {0})
      → World
      → ℕ
      → Bool
      → Instants
      → RunState env World
  autosaved engine (ok _) world tick_start did_tick at =
      next_round engine world at.autosaved tick_start did_tick at
  autosaved engine (err e) world tick_start did_tick at = returned (err e) engine world
  autosaved engine panic world tick_start did_tick at = returned panic engine world

  -- What follows the `select!` when it has not ended the loop.
  unfoldable pub after_select :
      PreloadEngine env World → World → ℕ → ℕ → Bool → Instants → RunState env World
  after_select engine world last_save tick_start did_tick at =
      let (answer, world1) = save engine world in
      if autosave_due engine.config last_save at.considered
      then autosaved engine answer world1 tick_start did_tick at
      else next_round engine world last_save tick_start did_tick at

  -- The branch of a control event.
  unfoldable pub controlled :
      Outcome Bool → PreloadEngine env World → World → ℕ → ℕ → Instants → RunState env World
  controlled (ok saved) engine world last_save tick_start at =
      after_select engine world (if saved then at.controlled else last_save) tick_start false at
  controlled (err e) engine world last_save tick_start at = returned (err e) engine world
  controlled panic engine world last_save tick_start at = returned panic engine world

  -- The branch of a tick.
  unfoldable pub ticked :
      Outcome TickReport → PreloadEngine env World → World → ℕ → ℕ → Instants → RunState env World
  ticked (ok report) engine world last_save tick_start at =
      after_select engine world last_save tick_start true at
  ticked (err e) engine world last_save tick_start at = returned (err e) engine world
  ticked panic engine world last_save tick_start at = returned panic engine world

  -- The branch of the cancellation.
  unfoldable pub shut_down : PreloadEngine env World → World → RunState env World
  shut_down engine world =
      let (answer, world1) = save engine world in
      if engine.config.save_on_shutdown
      then returned (ignored answer) engine world1
      else returned (ok tt) engine world

  unfoldable pub control :
      PreloadEngine env World
      → World
      → ControlEvent env World
      → ℕ
      → ℕ
      → Instants
      → RunState env World
  control engine world event last_save tick_start at =
      let (answer, (engine', world')) = handle_control engine world event in
      controlled answer engine' world' last_save tick_start at

  unfoldable pub run_tick : PreloadEngine env World → World → ℕ → ℕ → Instants → RunState env World
  run_tick engine world last_save tick_start at =
      let (answer, (engine', world')) = tick engine world in
      ticked answer engine' world' last_save tick_start at

  -- `Sent` tells which control events are sent, `Stops` what a dropped prefetch may have done.
  pub data StepTo (Sent : ControlEvent env World → Type 0)
      (Stops : World → PrefetchPlan → World → Type 0)
      : RunState env World → RunState env World → Type 0 where
    drops :
        {engine begun : PreloadEngine env World} {world world1 world2 : World}
        {last_save tick_start : ℕ} {plan : PrefetchPlan}
        → begin_tick engine world ≡ some (begun, plan, world1)
        → Stops world1 plan world2
        → StepTo Sent Stops
            (selecting engine world last_save tick_start)
            (dropped begun world2 last_save tick_start)
    cancels :
        {engine : PreloadEngine env World} {world : World} {last_save tick_start : ℕ}
        → StepTo Sent Stops (selecting engine world last_save tick_start) (shut_down engine world)
    cancels_dropped :
        {engine : PreloadEngine env World} {world : World} {last_save tick_start : ℕ}
        → StepTo Sent Stops (dropped engine world last_save tick_start) (shut_down engine world)
    controls :
        {engine : PreloadEngine env World} {world : World} {last_save tick_start : ℕ}
        (event : ControlEvent env World) (at : Instants)
        → Sent event
        → StepTo Sent Stops
            (selecting engine world last_save tick_start)
            (control engine world event last_save tick_start at)
    controls_dropped :
        {engine : PreloadEngine env World} {world : World} {last_save tick_start : ℕ}
        (event : ControlEvent env World) (at : Instants)
        → Sent event
        → StepTo Sent Stops
            (dropped engine world last_save tick_start)
            (control engine world event last_save tick_start at)
    ticks :
        {engine : PreloadEngine env World} {world : World} {last_save tick_start : ℕ}
        (at : Instants)
        → StepTo Sent Stops
            (selecting engine world last_save tick_start)
            (run_tick engine world last_save tick_start at)
    wakes :
        {engine : PreloadEngine env World} {world : World} {last_save : ℕ} (next_start : ℕ)
        → StepTo Sent Stops
            (sleeping engine world last_save)
            (selecting engine world last_save next_start)
    cancels_sleep :
        {engine : PreloadEngine env World} {world : World} {last_save : ℕ}
        → StepTo Sent Stops (sleeping engine world last_save) (shut_down engine world)

  pub data StepsTo (Sent : ControlEvent env World → Type 0)
      (Stops : World → PrefetchPlan → World → Type 0)
      : RunState env World → RunState env World → Type 0 where
    done : {s : RunState env World} → StepsTo Sent Stops s s
    after :
        {s s' s'' : RunState env World}
        → StepTo Sent Stops s s'
        → StepsTo Sent Stops s' s''
        → StepsTo Sent Stops s s''
