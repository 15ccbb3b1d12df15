-- ===== src/Prediction/Scores.antt =====
-- Which exes and maps have a score.
use preload_ng.Prelude.{
  ℕ, suc, ◌+◌, ◌≤◌, ◌≡◌, refl, ◌↔◌, ◌⊎◌, Bool, false, none, some, List, [], ◌∷◌, arith, ℕ_discrete,
  length,
}
use preload_ng.Prelude.HashMap as Map
use preload_ng.Prelude.HashMap.{HashMap, Distinct, insert_each}
use preload_ng.Observation.ModelUpdater.{is_running_id}
use preload_ng.Stores.EdgeKey.{EdgeKey}
use preload_ng.Stores.ExeStore
use preload_ng.Stores.MapStore
use preload_ng.Stores.MarkovGraph.Index as Graph
use preload_ng.Stores.Model.{Env, EnvLaws, Stores}
use preload_ng.Prediction.Defs.{
  Prediction, MarkovPredictor, weigh_edge, weigh_edges, score_exe, score_map, scores, predict,
}

module _ {env : Env} where
  -- The loop over the edges does not panic.
  weigh_edges_lem :
      (predictor : MarkovPredictor env.floats) (st : Stores env) (running : HashMap ℕ Bool)
      (not_needed : HashMap ℕ env.floats.F32) (i : ℕ) (keys : List EdgeKey)
      → Graph.IsValid st.markov
      → i + length keys ≤ length st.markov.keys
      → (r : HashMap ℕ env.floats.F32) × (weigh_edges env predictor st running not_needed i keys
          ≡ some r)
  unfolding weigh_edges
  weigh_edges_lem predictor st running not_needed i [] v h = (not_needed, refl)
  weigh_edges_lem predictor st running not_needed i (key ∷ keys) v h =
      let (edge, there) = Graph.edge_at-exists st.markov i v (omega arith) in
      let (r, done) =
        weigh_edges_lem predictor st running
          (weigh_edge env predictor st running not_needed key edge) (suc i) keys v (omega arith) in
      (r, rw (there, weigh_edges) done)

  -- What `predict` promises: each known exe and each known map has its score, and nothing else has
  -- one; an exe that runs has the score zero; and no id stands twice among the scores.
  pub record IsPrediction (st : Stores env) (p : Prediction env.floats) : Type 0 where
    pub exes_known :
        (id : ℕ) → (ExeStore.get st.exes id ≡ none) ↔ (Map.get ℕ_discrete p.exe_scores id ≡ none)
    pub maps_known :
        (id : ℕ) → (MapStore.get st.maps id ≡ none) ↔ (Map.get ℕ_discrete p.map_scores id ≡ none)
    pub running_zero :
        (id : ℕ)
        → (is_running_id st id ≡ false)
          ⊎ (Map.get ℕ_discrete p.exe_scores id ≡ some env.floats.zero16)
    pub exes_once : Distinct ℕ_discrete p.exe_scores
    pub maps_once : Distinct ℕ_discrete p.map_scores

  scores_lem :
      (laws : EnvLaws env) (st : Stores env) (not_needed : HashMap ℕ env.floats.F32)
      → IsPrediction st (scores env st not_needed)
  unfolding scores is_running_id Map.get ExeStore.get ExeStore.iter MapStore.get MapStore.iter
      score_exe
  scores_lem laws st not_needed =
      let exe_scores = (scores env st not_needed).exe_scores in
      let exe_iter = laws.exe_laws.iter-Distinct st.exes.exes in
      let map_iter = laws.map_laws.iter-Distinct st.maps.maps in
      record {
        exes_known = λ id. ground (
          arith,
          Map.get-insert_each ℕ_discrete (score_exe env st not_needed) [] (ExeStore.iter st.exes) id
              exe_iter,
          laws.exe_laws.get-iter st.exes.exes id,
        );
        maps_known = λ id. ground (
          arith,
          Map.get-insert_each ℕ_discrete (score_map env st exe_scores) [] (MapStore.iter st.maps) id
              map_iter,
          laws.map_laws.get-iter st.maps.maps id,
        );
        running_zero = λ id. ground (
          arith,
          Map.get-insert_each ℕ_discrete (score_exe env st not_needed) [] (ExeStore.iter st.exes) id
              exe_iter,
          laws.exe_laws.get-iter st.exes.exes id,
        );
        exes_once =
            Map.insert_each-Distinct ℕ_discrete (score_exe env st not_needed) []
              (ExeStore.iter st.exes) tt;
        maps_once =
            Map.insert_each-Distinct ℕ_discrete (score_map env st exe_scores) []
              (MapStore.iter st.maps) tt;
      }

  -- On stores with a valid graph `predict` never panics. Its answer has a score for each known exe
  -- and each known map and for nothing else, the score of a running exe is zero, and no id stands
  -- twice among the scores.
  pub predict_lem :
      (laws : EnvLaws env) (predictor : MarkovPredictor env.floats) (st : Stores env)
      → Graph.IsValid st.markov
      → (p : Prediction env.floats) × (predict env predictor st ≡ some p) × IsPrediction st p
  unfolding predict
  predict_lem laws predictor st v =
      let exes = ExeStore.iter st.exes in
      let running : HashMap ℕ Bool = insert_each ℕ_discrete (λ _ exe. exe.running) [] exes in
      let (not_needed, done) =
        weigh_edges_lem predictor st running [] 0 st.markov.keys v (omega arith) in
      (scores env st not_needed, rw (done, predict) refl, scores_lem laws st not_needed)
