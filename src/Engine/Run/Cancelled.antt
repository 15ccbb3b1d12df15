-- ===== src/Engine/Run/Cancelled.antt =====
-- How `run_until` of crates/orchestrator/src/engine.rs comes to an end: only its cancellation ends it
-- without an error.
use preload_ng.Prelude.{
  ℕ, ◌-◌, ◌≡◌, refl, sym, ap, ◌≢◌, ◌⊎◌, inl, inr, Bool, true, false, ◌&&◌, Option, none, some, ltb,
  if◌then◌else◌,
}
use preload_ng.Error.{Outcome, ok, err, panic}
use preload_ng.Prefetch.Planner.{PrefetchPlan}
use preload_ng.Stores.Model.{Env}
use preload_ng.Engine.Tick.{PreloadEngine, TickReport, ControlEvent, tick, save, handle_control}
use preload_ng.Engine.Run.{
  nanos, RunState, selecting, dropped, sleeping, returned, Instants, autosave_due, next_round,
  autosaved, after_select, controlled, ticked, ignored, shut_down, control, run_tick, StepTo, drops,
  cancels, cancels_dropped, controls, controls_dropped, ticks, wakes, cancels_sleep, StepsTo, done,
  after,
}
use preload_ng.Engine.Run.Fine.{IsFine, save-IsGood}

module _ {env : Env} {World : Type 0} {Sent : ControlEvent env World → Type 0}
    {Stops : World → PrefetchPlan → World → Type 0} where
  -- The engine and the world at the last cancellation, after one more step and after a run of the loop.
  unfoldable pub cancelled_by :
      {s s' : RunState env World}
      → Option (PreloadEngine env World × World)
      → StepTo Sent Stops s s'
      → Option (PreloadEngine env World × World)
  cancelled_by last (cancels {engine} {world}) = some (engine, world)
  cancelled_by last (cancels_dropped {engine} {world}) = some (engine, world)
  cancelled_by last (cancels_sleep {engine} {world}) = some (engine, world)
  cancelled_by last (drops _ _) = last
  cancelled_by last (controls _ _ _) = last
  cancelled_by last (controls_dropped _ _ _) = last
  cancelled_by last (ticks _) = last
  cancelled_by last (wakes _) = last

  unfoldable pub cancelled_from :
      {s s' : RunState env World}
      → Option (PreloadEngine env World × World)
      → StepsTo Sent Stops s s'
      → Option (PreloadEngine env World × World)
  cancelled_from last done = last
  cancelled_from last (after one more) = cancelled_from (cancelled_by last one) more

ignored-ok : (o : Outcome (Unit {0})) → o ≢ panic → ignored o ≡ ok tt
ignored-ok (ok _) h = refl
ignored-ok (err _) h = refl
ignored-ok panic h = absurd (h refl)

module _ {env : Env} {World : Type 0} where
  -- The loop goes on, or returns what is not a success.
  abbrev GoesOn : RunState env World → Type 0
  GoesOn (selecting engine world last_save tick_start) = Unit
  GoesOn (dropped engine world last_save tick_start) = Unit
  GoesOn (sleeping engine world last_save) = Unit
  GoesOn (returned answer engine world) = answer ≢ ok tt

  if-GoesOn :
      (b : Bool) (s t : RunState env World) → GoesOn s → GoesOn t → GoesOn (if b then s else t)
  if-GoesOn true s t h k = h
  if-GoesOn false s t h k = k

  next_round-GoesOn :
      (engine : PreloadEngine env World) (world : World) (last_save tick_start : ℕ)
      (did_tick : Bool) (at : Instants)
      → GoesOn (next_round engine world last_save tick_start did_tick at)
  unfolding next_round
  next_round-GoesOn engine world last_save tick_start did_tick at =
      if-GoesOn (did_tick && ltb (at.finished - tick_start) (nanos engine.config.cycle))
        (sleeping engine world last_save) (selecting engine world last_save at.next_start) tt tt

  autosaved-GoesOn :
      (engine : PreloadEngine env World) (answer : Outcome (Unit {0})) (world : World)
      (tick_start : ℕ) (did_tick : Bool) (at : Instants)
      → GoesOn (autosaved engine answer world tick_start did_tick at)
  unfolding autosaved
  autosaved-GoesOn engine (ok _) world tick_start did_tick at =
      next_round-GoesOn engine world at.autosaved tick_start did_tick at
  autosaved-GoesOn engine (err e) world tick_start did_tick at = λ h. cc
  autosaved-GoesOn engine panic world tick_start did_tick at = λ h. cc

  after_select-GoesOn :
      (engine : PreloadEngine env World) (world : World) (last_save tick_start : ℕ)
      (did_tick : Bool) (at : Instants)
      → GoesOn (after_select engine world last_save tick_start did_tick at)
  unfolding after_select
  after_select-GoesOn engine world last_save tick_start did_tick at =
      if-GoesOn (autosave_due engine.config last_save at.considered)
        (autosaved engine (save engine world).0 (save engine world).1 tick_start did_tick at)
        (next_round engine world last_save tick_start did_tick at)
        (autosaved-GoesOn engine (save engine world).0 (save engine world).1 tick_start did_tick at)
        (next_round-GoesOn engine world last_save tick_start did_tick at)

  controlled-GoesOn :
      (answer : Outcome Bool) (engine : PreloadEngine env World) (world : World)
      (last_save tick_start : ℕ) (at : Instants)
      → GoesOn (controlled answer engine world last_save tick_start at)
  unfolding controlled
  controlled-GoesOn (ok saved) engine world last_save tick_start at =
      after_select-GoesOn engine world (if saved then at.controlled else last_save) tick_start false
        at
  controlled-GoesOn (err e) engine world last_save tick_start at = λ h. cc
  controlled-GoesOn panic engine world last_save tick_start at = λ h. cc

  ticked-GoesOn :
      (answer : Outcome TickReport) (engine : PreloadEngine env World) (world : World)
      (last_save tick_start : ℕ) (at : Instants)
      → GoesOn (ticked answer engine world last_save tick_start at)
  unfolding ticked
  ticked-GoesOn (ok report) engine world last_save tick_start at =
      after_select-GoesOn engine world last_save tick_start true at
  ticked-GoesOn (err e) engine world last_save tick_start at = λ h. cc
  ticked-GoesOn panic engine world last_save tick_start at = λ h. cc

  control-GoesOn :
      (engine : PreloadEngine env World) (world : World) (event : ControlEvent env World)
      (last_save tick_start : ℕ) (at : Instants)
      → GoesOn (control engine world event last_save tick_start at)
  unfolding control
  control-GoesOn engine world event last_save tick_start at =
      let (answer, (engine', world')) = handle_control engine world event in
      controlled-GoesOn answer engine' world' last_save tick_start at

  run_tick-GoesOn :
      (engine : PreloadEngine env World) (world : World) (last_save tick_start : ℕ) (at : Instants)
      → GoesOn (run_tick engine world last_save tick_start at)
  unfolding run_tick
  run_tick-GoesOn engine world last_save tick_start at =
      let (answer, (engine', world')) = tick engine world in
      ticked-GoesOn answer engine' world' last_save tick_start at

  -- The world that a shutdown leaves: after a save of the engine, if its configuration asks for it.
  abbrev pub after_shutdown : PreloadEngine env World → World → World
  after_shutdown engine before =
      if engine.config.save_on_shutdown then (save engine before).1 else before

  -- What the loop returns: no success, and then it was not cancelled, or a success, and then it was
  -- cancelled with this engine, and did no more than the save that the configuration asks for.
  abbrev pub EndsBy :
      Option (PreloadEngine env World × World)
      → Outcome (Unit {0})
      → PreloadEngine env World
      → World
      → Type 0
  EndsBy last answer engine world =
      ((answer ≢ ok tt) × (last ≡ none))
      ⊎ ((before : World) × (answer ≡ ok tt)
          × (last ≡ some (engine, before))
          × (world ≡ after_shutdown engine before))

  abbrev pub IsExplained : Option (PreloadEngine env World × World) → RunState env World → Type 0
  IsExplained last (selecting engine world last_save tick_start) = last ≡ none
  IsExplained last (dropped engine world last_save tick_start) = last ≡ none
  IsExplained last (sleeping engine world last_save) = last ≡ none
  IsExplained last (returned answer engine world) = EndsBy last answer engine world

  GoesOn-IsExplained :
      (last : Option (PreloadEngine env World × World)) (s : RunState env World)
      → last ≡ none
      → GoesOn s
      → IsExplained last s
  GoesOn-IsExplained last (selecting engine world last_save tick_start) e h = e
  GoesOn-IsExplained last (dropped engine world last_save tick_start) e h = e
  GoesOn-IsExplained last (sleeping engine world last_save) e h = e
  GoesOn-IsExplained last (returned answer engine world) e h = inl (h, e)

  shut_down-IsExplained :
      (engine : PreloadEngine env World) (world : World)
      → (save engine world).0 ≢ panic
      → IsExplained (some (engine, world)) (shut_down engine world)
  unfolding shut_down
  shut_down-IsExplained engine world h = explained engine.config.save_on_shutdown refl
    where
      explained :
          (asked : Bool)
          → engine.config.save_on_shutdown ≡ asked
          → IsExplained (some (engine, world)) (
              if asked
              then returned (ignored (save engine world).0) engine (save engine world).1
              else returned (ok tt) engine world)
      explained true e = inr (
        world,
        ignored-ok (save engine world).0 h,
        refl,
        sym (ap (λ b. if b then (save engine world).1 else world) e),
      )
      explained false e =
          inr (world, refl, refl, sym (ap (λ b. if b then (save engine world).1 else world) e))

module _ {env : Env} {World : Type 0} {Sent : ControlEvent env World → Type 0}
    {Stops : World → PrefetchPlan → World → Type 0} where
  pub StepTo-IsExplained :
      {s s' : RunState env World} (last : Option (PreloadEngine env World × World))
      (one : StepTo Sent Stops s s')
      → IsFine s
      → IsExplained last s
      → IsExplained (cancelled_by last one) s'
  unfolding cancelled_by
  StepTo-IsExplained last (drops _ _) g e = e
  StepTo-IsExplained last (cancels {engine} {world}) g e =
      shut_down-IsExplained engine world (save-IsGood engine world g)
  StepTo-IsExplained last (cancels_dropped {engine} {world}) g e =
      shut_down-IsExplained engine world (save-IsGood engine world g)
  StepTo-IsExplained last (cancels_sleep {engine} {world}) g e =
      shut_down-IsExplained engine world (save-IsGood engine world g)
  StepTo-IsExplained last (controls {engine} {world} {last_save} {tick_start} event at _) g e =
      GoesOn-IsExplained last (control engine world event last_save tick_start at) e
        (control-GoesOn engine world event last_save tick_start at)
  StepTo-IsExplained last (controls_dropped {engine} {world} {last_save} {tick_start} event at _) g
        e =
      GoesOn-IsExplained last (control engine world event last_save tick_start at) e
        (control-GoesOn engine world event last_save tick_start at)
  StepTo-IsExplained last (ticks {engine} {world} {last_save} {tick_start} at) g e =
      GoesOn-IsExplained last (run_tick engine world last_save tick_start at) e
        (run_tick-GoesOn engine world last_save tick_start at)
  StepTo-IsExplained last (wakes next_start) g e = e
