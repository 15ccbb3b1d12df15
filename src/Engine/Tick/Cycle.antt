-- ===== src/Engine/Tick/Cycle.antt =====
-- The invariant over one cycle.
use preload_ng.Prelude.{
  ℕ, ◌≡◌, refl, ◌≢◌, inl, inr, true, false, Option, none, some, arith, Bool-cases,
}
use preload_ng.Error.{Outcome, ok, err, panic, ◌>>=◌}
use preload_ng.Observation.Event.{Observation}
use preload_ng.Observation.ModelUpdater.{ModelDelta, no_delta, saturating_add}
use preload_ng.Prediction.{Prediction}
use preload_ng.Prefetch.Planner.{PrefetchPlan}
use preload_ng.Engine.Restore.Records.{at_times-IsValid}
use preload_ng.Stores.Invariant.{IsValid}
use preload_ng.Stores.Model.{Env, EnvLaws, Stores}
use preload_ng.Engine.Tick.{
  PreloadEngine, Services, after_observation, no_scan, observe, predict_and_prefetch, predict_next,
  prefetch_next, purge_stale, tick, update_model,
}
use preload_ng.Engine.Tick.Purge.{purge_stale_lem}

abbrev with_observation : {A : Type 0} → Observation → A → Outcome (Observation × A)
with_observation observation a = ok (observation, a)

bind-returns :
    {A : Type 0} (o : Outcome A) (observation : Observation)
    → o ≢ panic
    → (o >>= with_observation observation) ≢ panic
bind-returns (ok a) observation h = λ e. ground arith
bind-returns (err x) observation h = λ e. ground arith
bind-returns panic observation h = λ e. h refl

-- What the engine relies on: the updater and the predictor do not panic on valid stores, the updater
-- keeps them valid, and the scan does not panic.
pub record ServicesLaws {env : Env} {World : Type 0} (services : Services env World) : Type 0 where
  pub scan_returns : (w : World) (now scan_id : ℕ) → (services.scan w now scan_id).0 ≢ panic
  pub apply_returns :
      (w : World) (st : Stores env) (observation : Observation)
      → IsValid st
      → ((services.apply w st observation).0 ≢ panic)
        × IsValid (services.apply w st observation).1.0
  pub predict_returns : (st : Stores env) → IsValid st → services.predict st ≢ none

module _ {env : Env} {World : Type 0} (laws : EnvLaws env) where
  prefetch_next-IsValid :
      (engine : PreloadEngine env World) (world : World) (plan : PrefetchPlan)
      → IsValid engine.stores
      → IsValid (prefetch_next engine world plan).1.0.stores
  unfolding prefetch_next
  prefetch_next-IsValid engine world plan v =
      let executed = engine.services.execute world plan engine.stores in
      let left =
        purge_stale_lem laws (engine.services.exists executed.1) engine.stores executed.0.failures
          v in
      at_times-IsValid
        (purge_stale (engine.services.exists executed.1) engine.stores executed.0.failures) _ _
        left.0

  predict_and_prefetch-IsValid :
      (engine : PreloadEngine env World) (world : World) (seen : Observation × ModelDelta)
      (p : Option (Prediction env.floats))
      → IsValid engine.stores
      → p ≢ none
      → ((predict_and_prefetch engine world seen p).0 ≢ panic)
        × IsValid (predict_and_prefetch engine world seen p).1.0.stores
  unfolding predict_and_prefetch
  predict_and_prefetch-IsValid engine world seen none v some_p = absurd (some_p refl)
  predict_and_prefetch-IsValid engine world seen (some prediction) v some_p =
      (λ h. ground (arith, h), prefetch_next-IsValid engine world _ v)

  module _ (engine : PreloadEngine env World) (services : ServicesLaws engine.services) where
    predict_next-returns : (st : Stores env) → IsValid st → predict_next engine st ≢ none
    unfolding predict_next
    predict_next-returns st v = ground (arith, services.predict_returns st v)

    update_model-IsValid :
        (world : World) (seen : Outcome Observation)
        → IsValid engine.stores
        → seen ≢ panic
        → ((update_model engine world seen).0 ≢ panic)
          × IsValid (update_model engine world seen).1.0
    unfolding update_model
    update_model-IsValid world (ok observation) v returned =
        let (answer, valid) = services.apply_returns world engine.stores observation v in
        (
          bind-returns (engine.services.apply world engine.stores observation).0 observation answer,
          valid,
        )
    update_model-IsValid world (err e) v returned = ((λ h. ground arith), v)
    update_model-IsValid world panic v returned = absurd (returned refl)

    observe-scan :
        (world : World) (scan_id : ℕ)
        → engine.config.doscan ≡ true
        → observe engine world scan_id
          ≡ update_model engine
              (engine.services.scan world engine.stores.model_time scan_id).1
              (engine.services.scan world engine.stores.model_time scan_id).0
    unfolding observe
    observe-scan world scan_id h = ground (arith, h)

    observe-no_scan :
        (world : World) (scan_id : ℕ)
        → engine.config.doscan ≡ false
        → observe engine world scan_id
          ≡ (ok (no_scan engine.stores.model_time scan_id, no_delta), (engine.stores, world))
    unfolding observe
    observe-no_scan world scan_id h = ground (arith, h)

    pub observe-IsValid :
        (world : World) (scan_id : ℕ)
        → IsValid engine.stores
        → ((observe engine world scan_id).0 ≢ panic) × IsValid (observe engine world scan_id).1.0
    observe-IsValid world scan_id v =
        let seen = engine.services.scan world engine.stores.model_time scan_id in
        elim (Bool-cases engine.config.doscan) [
          | inl scans ↦ rw (observe-scan world scan_id scans) (
              update_model-IsValid seen.1 seen.0 v
                (services.scan_returns world engine.stores.model_time scan_id))
          | inr idle ↦ rw (observe-no_scan world scan_id idle) ((λ h. ground arith), v)
        ]

  after_observation-IsValid :
      (engine : PreloadEngine env World) (world : World) (seen : Outcome (Observation × ModelDelta))
      → ServicesLaws engine.services
      → IsValid engine.stores
      → seen ≢ panic
      → ((after_observation engine world seen).0 ≢ panic)
        × IsValid (after_observation engine world seen).1.0.stores
  unfolding after_observation
  after_observation-IsValid engine world (ok seen) services v returned =
      predict_and_prefetch-IsValid engine world seen (predict_next engine engine.stores) v
        (predict_next-returns engine services engine.stores v)
  after_observation-IsValid engine world (err e) services v returned = ((λ h. ground arith), v)
  after_observation-IsValid engine world panic services v returned = absurd (returned refl)

  -- If the services do not panic and the updater keeps valid stores valid, a cycle from valid stores
  -- does not panic and leaves valid stores, also when it ends with an error.
  pub tick-IsValid :
      (engine : PreloadEngine env World) (world : World)
      → ServicesLaws engine.services
      → IsValid engine.stores
      → ((tick engine world).0 ≢ panic) × IsValid (tick engine world).1.0.stores
  unfolding tick
  tick-IsValid engine world services v =
      let scan_id = saturating_add engine.scan_id 1 in
      let (returned, valid) = observe-IsValid engine services world scan_id v in
      let seen = observe engine world scan_id in
      after_observation-IsValid (record engine { scan_id = scan_id; stores = seen.1.0 }) seen.1.1
        seen.0 services valid returned
