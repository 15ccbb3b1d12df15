-- ===== src/Engine/Tick/Defaults.antt =====
-- The default updater as a service of the engine (crates/cli/src/main.rs builds the engine with it).
use preload_ng.Prelude.{ℕ, ◌≡◌, sym, ap, ◌∙◌, subst, ◌≢◌, none, some, arith}
use preload_ng.Error.{Outcome, ok, panic}
use preload_ng.Observation.Event.{Observation}
use preload_ng.Observation.ModelUpdater.{Policy, ModelUpdater, ModelDelta, apply}
use preload_ng.Observation.ModelUpdater.Total
use preload_ng.Prediction.{MarkovPredictor, predict}
use preload_ng.Prediction.Scores
use preload_ng.Stores.Invariant.{IsValid}
use preload_ng.Stores.Model.{Env, EnvLaws, Stores}
use preload_ng.Engine.Tick.{Services}
use preload_ng.Engine.Tick.Cycle.{ServicesLaws}

module _ {env : Env} {World : Type 0} where
  -- The answer of the updater, in the form that the engine takes.
  unfoldable pub update_with :
      ModelUpdater env.floats
      → Policy World
      → World
      → Stores env
      → Observation
      → Outcome ModelDelta × (Stores env × World)
  update_with updater dyn world st observation = elim (apply updater dyn world st observation) [
    | none ↦ (panic, (st, world))
    | some r ↦ (ok r.0.1, (r.0.0, r.1))
  ]

  -- Services that scan without a panic, update the model by the default updater and predict by the
  -- Markov predictor meet the laws that the engine relies on.
  pub default-ServicesLaws :
      (laws : EnvLaws env) (services : Services env World) (updater : ModelUpdater env.floats)
      (predictor : MarkovPredictor env.floats)
      → services.apply ≡ update_with updater services.admission
      → services.predict ≡ predict env predictor
      → ((w : World) (now scan_id : ℕ) → (services.scan w now scan_id).0 ≢ panic)
      → ServicesLaws services
  unfolding update_with
  default-ServicesLaws laws services updater predictor updates predicts returns = record {
    scan_returns = returns;
    apply_returns = λ w st observation v.
        subst (λ f. ((f w st observation).0 ≢ panic) × IsValid (f w st observation).1.0)
          (sym updates)
          (let (r, done, valid, _, _) =
              Total.apply-IsValid laws updater services.admission w st observation v in
            rw (done, update_with) ((λ h. ground arith), valid));
    predict_returns = λ st v.
        let (p, done, _) = Scores.predict_lem laws predictor st v.markov in
        λ h. ground (arith, sym done ∙ sym (ap (λ f. f st) predicts) ∙ h);
  }
