-- ===== src/Prediction/Defs.antt =====
-- crates/orchestrator/src/prediction/predictor.rs and types.rs.
use preload_ng.Prelude.{
  ℕ, suc, ◌+◌, ◌-◌, ◌%◌, Bool, false, ◌||◌, Option, none, some, List, [], ◌∷◌, ℕ_discrete, ltb, leb,
  ◌==◌, if◌then◌else◌, length,
}
use preload_ng.Prelude.HashMap as Map
use preload_ng.Prelude.HashMap.{HashMap, insert_each}
use preload_ng.Domain.{Exe, MapSegment, MarkovState, a_only, b_only, both, from_running}
use preload_ng.Floats.{Floats}
use preload_ng.Math.{fast_exp_neg}
use preload_ng.Stores.EdgeKey.{EdgeKey}
use preload_ng.Stores.ExeStore
use preload_ng.Stores.MapStore
use preload_ng.Stores.ExeMapIndex
use preload_ng.Stores.MarkovGraph
use preload_ng.Stores.MarkovGraph.{MarkovGraph, EdgeRef, Array4, at, for4, fill}
use preload_ng.Stores.Model.{Env, Stores}

pub record Prediction (fl : Floats) : Type 0 where
  pub exe_scores : HashMap ℕ fl.F16
  pub map_scores : HashMap ℕ fl.F16

pub record PredictionSummary : Type 0 where
  pub num_exes_scored : ℕ
  pub num_maps_scored : ℕ

unfoldable pub summarize : {fl : Floats} → Prediction fl → PredictionSummary
summarize prediction = record {
  num_exes_scored = length prediction.exe_scores;
  num_maps_scored = length prediction.map_scores;
}

pub record MarkovPredictor (fl : Floats) : Type 0 where
  pub use_correlation : Bool
  pub cycle_secs : fl.F32

module _ (env : Env) where
  open env use {floats}
  open floats use {
    F32, F16, zero32, one, add, sub, mul, div, neg, abs, sqrt, max, clamp01, not_positive, is_zero,
    of_u64, min_positive, of_decimal, zero16, from_f32, to_f32,
  }

  abbrev pub total_running_time_of : Stores env → ℕ → ℕ
  total_running_time_of st id = elim (ExeStore.get st.exes id) [
    | none ↦ 0
    | some exe ↦ exe.total_running_time
  ]

  -- The phi coefficient of two exes, if it is determined.
  unfoldable pub correlation : Stores env → ℕ → ℕ → ℕ → Option F32
  correlation st a b ab_time =
      let t = st.model_time in
      let a_time : ℕ = total_running_time_of st a in
      let b_time : ℕ = total_running_time_of st b in
      if (t == 0) || ((a_time == 0) || ((b_time == 0) || (leb t a_time || leb t b_time)))
      then none
      else let numerator =
          sub (mul (of_u64 t) (of_u64 ab_time)) (mul (of_u64 a_time) (of_u64 b_time)) in
        let denom = sqrt (
          mul (mul (mul (of_u64 a_time) (of_u64 b_time)) (of_u64 (t - a_time)))
            (of_u64 (t - b_time))) in
        if is_zero denom then none else some (div numerator denom)

  unfoldable pub p_needed : EdgeRef floats → MarkovState → MarkovState → F32 → F32
  p_needed edge state target_state cycle =
      let tt = to_f32 (at edge.time_to_leave state) in
      if not_positive tt
      then zero32
      else let p_state_change = sub one (fast_exp_neg floats (div (neg cycle) tt)) in
        let row = at edge.transition_prob state in
        let p_runs_next = add (to_f32 (at row target_state)) (to_f32 (at row both)) in
        clamp01 (mul p_state_change p_runs_next)

  -- `*entry(id).or_insert(1.0) *= 1.0 - p`.
  unfoldable pub multiply_in : HashMap ℕ F32 → ℕ → F32 → HashMap ℕ F32
  multiply_in not_needed id p =
      let old : F32 = elim (Map.get ℕ_discrete not_needed id) [ none ↦ one | some q ↦ q ] in
      Map.insert ℕ_discrete not_needed id (mul old (sub one p))

  abbrev pub running_of : HashMap ℕ Bool → ℕ → Bool
  running_of running id = elim (Map.get ℕ_discrete running id) [ none ↦ false | some r ↦ r ]

  -- The body of the loop over the edges.
  unfoldable pub weigh_edge :
      MarkovPredictor floats
      → Stores env
      → HashMap ℕ Bool
      → HashMap ℕ F32
      → EdgeKey
      → EdgeRef floats
      → HashMap ℕ F32
  weigh_edge predictor st running not_needed key edge =
      let a_running : Bool = running_of running key.a in
      let b_running : Bool = running_of running key.b in
      let state = from_running a_running b_running in
      let corr : F32 =
        if predictor.use_correlation
        then elim (correlation st key.a key.b edge.both_running_time) [
          | none ↦ min_positive
          | some c ↦ abs c
        ]
        else one in
      let with_a : HashMap ℕ F32 =
        if a_running
        then not_needed
        else multiply_in not_needed key.a
            (clamp01 (mul (p_needed edge state a_only predictor.cycle_secs) corr)) in
      if b_running
      then with_a
      else multiply_in with_a key.b
          (clamp01 (mul (p_needed edge state b_only predictor.cycle_secs) corr))

  -- `markov.iter()`: the positions in order; a position that is out of bounds panics.
  unfoldable pub weigh_edges :
      MarkovPredictor floats
      → Stores env
      → HashMap ℕ Bool
      → HashMap ℕ F32
      → ℕ
      → List EdgeKey
      → Option (HashMap ℕ F32)
  weigh_edges predictor st running not_needed i [] = some not_needed
  weigh_edges predictor st running not_needed i (key ∷ keys) =
      elim (MarkovGraph.edge_at st.markov i) [
        | none ↦ none
        | some edge ↦
            weigh_edges predictor st running (weigh_edge predictor st running not_needed key edge)
              (suc i) keys
      ]

  -- The score of one exe.
  unfoldable pub score_exe : Stores env → HashMap ℕ F32 → ℕ → Exe → F16
  score_exe st not_needed exe_id exe =
      if exe.running
      then zero16
      else let markov_needed : F32 = elim (Map.get ℕ_discrete not_needed exe_id) [
        | none ↦ zero32
        | some p ↦ clamp01 (sub one p)
      ] in
        let base_prob : F32 =
          if ltb 0 st.model_time
          then clamp01 (div (of_u64 exe.total_running_time) (of_u64 st.model_time))
          else zero32 in
        from_f32 (max (max markov_needed base_prob) (of_decimal 1 6))

  -- The loop of the four accumulators over the exes of a map.
  unfoldable pub reduce : HashMap ℕ F16 → Array4 F32 → ℕ → List ℕ → Array4 F32
  reduce exe_scores acc lane [] = acc
  reduce exe_scores acc lane (exe_id ∷ exe_ids) =
      let exe_score : F16 = elim (Map.get ℕ_discrete exe_scores exe_id) [
        | none ↦ zero16
        | some s ↦ s
      ] in
      reduce exe_scores
        (for4 (λ i q. if i == lane then mul q (sub one (to_f32 exe_score)) else q) acc)
        ((lane + 1) % 4) exe_ids

  -- The score of one map.
  unfoldable pub score_map : Stores env → HashMap ℕ F16 → ℕ → MapSegment → F16
  score_map st exe_scores map_id segment =
      let acc = reduce exe_scores (fill one) 0 (ExeMapIndex.exes_for_map st.exe_maps map_id) in
      from_f32 (clamp01 (sub one (mul (mul (mul acc.at0 acc.at1) acc.at2) acc.at3)))

  -- The two loops that fill the prediction.
  unfoldable pub scores : Stores env → HashMap ℕ F32 → Prediction floats
  scores st not_needed =
      let exe_scores =
        insert_each ℕ_discrete (score_exe st not_needed) [] (ExeStore.iter st.exes) in
      record {
        exe_scores = exe_scores;
        map_scores = insert_each ℕ_discrete (score_map st exe_scores) [] (MapStore.iter st.maps);
      }

  unfoldable pub predict : MarkovPredictor floats → Stores env → Option (Prediction floats)
  predict predictor st =
      let running : HashMap ℕ Bool =
        insert_each ℕ_discrete (λ _ exe. exe.running) [] (ExeStore.iter st.exes) in
      elim (weigh_edges predictor st running [] 0 st.markov.keys) [
        | none ↦ none
        | some not_needed ↦ some (scores st not_needed)
      ]
