-- ===== src/Engine/Run/Fine.antt =====
-- What holds wherever `run_until` of crates/orchestrator/src/engine.rs stands, for each part of a round.
use preload_ng.Prelude.{
  ℕ, ◌-◌, ◌≡◌, refl, sym, subst, ◌≢◌, Bool, true, false, ◌&&◌, ltb, if◌then◌else◌,
}
use preload_ng.Error.{Error, Outcome, ok, err, panic, ◌>>=◌}
use preload_ng.Stores.Model.{Env, EnvLaws}
use preload_ng.Engine.Tick.{
  EngineConfig, Services, PreloadEngine, TickReport, ControlEvent, reload, dump_status, save_now,
  tick, save, apply_reload, handle_control,
}
use preload_ng.Engine.Tick.Cycle.{ServicesLaws, tick-IsValid}
use preload_ng.Engine.Run.{
  nanos, RunState, selecting, dropped, sleeping, returned, Instants, autosave_due, next_round,
  autosaved, after_select, controlled, ticked, ignored, shut_down, control, run_tick,
}
use preload_ng.Engine.Run.Saved.{save-returns}
use preload_ng.Engine.Run.Kept.{RunLaws, IsGood, reloaded-RunLaws, tick-services}

module _ {env : Env} {World : Type 0} where
  -- Everywhere the stores are valid; where the loop has returned it is not by a panic.
  abbrev pub IsFine : RunState env World → Type 0
  IsFine (selecting engine world last_save tick_start) = IsGood engine
  IsFine (dropped engine world last_save tick_start) = IsGood engine
  IsFine (sleeping engine world last_save) = IsGood engine
  IsFine (returned answer engine world) = IsGood engine × (answer ≢ panic)

  if-IsFine :
      (b : Bool) (s t : RunState env World)
      → (b ≡ true → IsFine s)
      → (b ≡ false → IsFine t)
      → IsFine (if b then s else t)
  if-IsFine true s t hs ht = hs refl
  if-IsFine false s t hs ht = ht refl

  next_round-IsFine :
      (engine : PreloadEngine env World) (world : World) (last_save tick_start : ℕ)
      (did_tick : Bool) (at : Instants)
      → IsGood engine
      → IsFine (next_round engine world last_save tick_start did_tick at)
  unfolding next_round
  next_round-IsFine engine world last_save tick_start did_tick at g =
      if-IsFine (did_tick && ltb (at.finished - tick_start) (nanos engine.config.cycle))
        (sleeping engine world last_save) (selecting engine world last_save at.next_start) (λ _. g)
        (λ _. g)

  failed-IsFine :
      (e : Error) (engine : PreloadEngine env World) (world : World)
      → IsGood engine
      → IsFine (returned (err e) engine world)
  failed-IsFine e engine world g = (g, λ h. cc)

  autosaved-IsFine :
      (engine : PreloadEngine env World) (answer : Outcome (Unit {0})) (world : World)
      (tick_start : ℕ) (did_tick : Bool) (at : Instants)
      → IsGood engine
      → answer ≢ panic
      → IsFine (autosaved engine answer world tick_start did_tick at)
  unfolding autosaved
  autosaved-IsFine engine (ok _) world tick_start did_tick at g h =
      next_round-IsFine engine world at.autosaved tick_start did_tick at g
  autosaved-IsFine engine (err e) world tick_start did_tick at g h = failed-IsFine e engine world g
  autosaved-IsFine engine panic world tick_start did_tick at g h = absurd (h refl)

  pub save-IsGood :
      (engine : PreloadEngine env World) (world : World)
      → IsGood engine
      → (save engine world).0 ≢ panic
  save-IsGood engine world (v, laws) = save-returns engine world v (laws.save_returns world)

  after_select-IsFine :
      (engine : PreloadEngine env World) (world : World) (last_save tick_start : ℕ)
      (did_tick : Bool) (at : Instants)
      → IsGood engine
      → IsFine (after_select engine world last_save tick_start did_tick at)
  unfolding after_select
  after_select-IsFine engine world last_save tick_start did_tick at g =
      if-IsFine (autosave_due engine.config last_save at.considered)
        (autosaved engine (save engine world).0 (save engine world).1 tick_start did_tick at)
        (next_round engine world last_save tick_start did_tick at)
        (λ _.
          autosaved-IsFine engine (save engine world).0 (save engine world).1 tick_start did_tick at
            g (save-IsGood engine world g))
        (λ _. next_round-IsFine engine world last_save tick_start did_tick at g)

  pub shut_down-IsFine :
      (engine : PreloadEngine env World) (world : World)
      → IsGood engine
      → IsFine (shut_down engine world)
  unfolding shut_down
  shut_down-IsFine engine world g =
      if-IsFine engine.config.save_on_shutdown
        (returned (ignored (save engine world).0) engine (save engine world).1)
        (returned (ok tt) engine world)
        (λ _. (g, ignored-returns (save engine world).0 (save-IsGood engine world g)))
        (λ _. (g, λ h. cc))
    where
      ignored-returns : (o : Outcome (Unit {0})) → o ≢ panic → ignored o ≢ panic
      ignored-returns (ok _) h = λ e. cc
      ignored-returns (err _) h = λ e. cc
      ignored-returns panic h = h

  controlled-IsFine :
      (answer : Outcome Bool) (engine : PreloadEngine env World) (world : World)
      (last_save tick_start : ℕ) (at : Instants)
      → IsGood engine
      → answer ≢ panic
      → IsFine (controlled answer engine world last_save tick_start at)
  unfolding controlled
  controlled-IsFine (ok saved) engine world last_save tick_start at g h =
      after_select-IsFine engine world (if saved then at.controlled else last_save) tick_start false
        at g
  controlled-IsFine (err e) engine world last_save tick_start at g h =
      failed-IsFine e engine world g
  controlled-IsFine panic engine world last_save tick_start at g h = absurd (h refl)

  ticked-IsFine :
      (answer : Outcome TickReport) (engine : PreloadEngine env World) (world : World)
      (last_save tick_start : ℕ) (at : Instants)
      → IsGood engine
      → answer ≢ panic
      → IsFine (ticked answer engine world last_save tick_start at)
  unfolding ticked
  ticked-IsFine (ok report) engine world last_save tick_start at g h =
      after_select-IsFine engine world last_save tick_start true at g
  ticked-IsFine (err e) engine world last_save tick_start at g h = failed-IsFine e engine world g
  ticked-IsFine panic engine world last_save tick_start at g h = absurd (h refl)

  pub control-IsFine :
      (engine : PreloadEngine env World) (world : World) (event : ControlEvent env World)
      (last_save tick_start : ℕ) (at : Instants)
      → IsGood engine
      → ((config : EngineConfig) (bundle : Services env World)
          → event ≡ reload config bundle
          → ServicesLaws bundle)
      → IsFine (control engine world event last_save tick_start at)
  unfolding control handle_control apply_reload
  control-IsFine engine world (reload config bundle) last_save tick_start at (v, laws) lawful =
      controlled-IsFine (ok false) (apply_reload engine config bundle) world last_save tick_start at
        (v, reloaded-RunLaws engine.services bundle laws (lawful config bundle refl)) (λ h. cc)
  control-IsFine engine world dump_status last_save tick_start at g lawful =
      controlled-IsFine (ok false) engine world last_save tick_start at g (λ h. cc)
  control-IsFine engine world save_now last_save tick_start at g lawful =
      controlled-IsFine ((save engine world).0 >>= λ _. ok true) engine (save engine world).1
        last_save tick_start at g (saved-returns (save engine world).0 (save-IsGood engine world g))
    where
      saved-returns : (o : Outcome (Unit {0})) → o ≢ panic → (o >>= λ _. ok true) ≢ panic
      saved-returns (ok _) h = λ e. cc
      saved-returns (err _) h = λ e. cc
      saved-returns panic h = λ e. h refl

  pub run_tick-IsFine :
      (laws : EnvLaws env) (engine : PreloadEngine env World) (world : World)
      (last_save tick_start : ℕ) (at : Instants)
      → IsGood engine
      → IsFine (run_tick engine world last_save tick_start at)
  unfolding run_tick
  run_tick-IsFine laws engine world last_save tick_start at (v, services) =
      let (returns, valid) = tick-IsValid laws engine world services.cycle v in
      ticked-IsFine (tick engine world).0 (tick engine world).1.0 (tick engine world).1.1 last_save
        tick_start at (valid, subst RunLaws (sym (tick-services engine world)) services) returns
