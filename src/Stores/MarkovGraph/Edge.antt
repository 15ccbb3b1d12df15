-- ===== src/Stores/MarkovGraph/Edge.antt =====
-- One edge, and its update when the pair of exes changes its state.
use preload_ng.Prelude.{ℕ, ◌-◌, ite, Bool, ◌==◌, if◌then◌else◌}
use preload_ng.Domain.{MarkovState, MarkovState-discrete, state_index}
use preload_ng.Floats.{Floats}
use preload_ng.Math.{fast_exp_neg}
use preload_ng.Stores.MarkovGraph.FourStates.{Array4, for4, at, write}

-- `EdgeRef` and `EdgeRefMut`: the fields of one edge.
pub record EdgeRef (fl : Floats) : Type 0 where
  pub state : MarkovState
  pub last_change_time : ℕ
  pub state_last_left : Array4 ℕ
  pub time_to_leave : Array4 fl.F16
  pub transition_prob : Array4 (Array4 fl.F16)
  pub both_running_time : ℕ

module _ (fl : Floats) where
  open fl use {F32, F16, zero32, one, add, sub, mul, neg, of_u64, from_f32, to_f32}

  -- `convert_to_f32_slice` and `convert_from_f32_slice`.
  abbrev pub to_f32_slice : Array4 F16 → Array4 F32
  to_f32_slice = for4 (λ _ x. to_f32 x)

  abbrev pub from_f32_slice : Array4 F32 → Array4 F16
  from_f32_slice = for4 (λ _ x. from_f32 x)

  -- `b as u8 as f32`.
  abbrev pub flag : Bool → F32
  flag b = if b then one else zero32

  -- One row of the transition matrix: only the row of the state that was left is mixed.
  unfoldable pub update_row : ℕ → ℕ → F32 → ℕ → Array4 F16 → Array4 F16
  update_row old_ix new_ix mix_tp i row =
      let is_active_row = flag (i == old_ix) in
      let mix = add (mul is_active_row mix_tp) (sub one is_active_row) in
      let one_minus_mix = sub one mix in
      from_f32_slice (
        for4 (λ j x. add (mul mix x) (mul one_minus_mix (mul is_active_row (flag (j == new_ix)))))
          (to_f32_slice row))

  -- The dwell time of the state that was left, mixed into its mean.
  unfoldable pub update_ttl : MarkovState → F32 → F32 → Array4 F16 → Array4 F16
  update_ttl old_state mix_tt dwell ttl =
      let ttl_f32 = to_f32_slice ttl in
      from_f32_slice (
        write ttl_f32 old_state
          (add (mul mix_tt (at ttl_f32 old_state)) (mul (sub one mix_tt) dwell)))

  -- The body of `update_state` after its early return.
  unfoldable pub change_state : EdgeRef fl → MarkovState → ℕ → F32 → EdgeRef fl
  change_state e new_state now decay =
      let old_state = e.state in
      let dt_since_left = now - at e.state_last_left old_state in
      let dt_since_change = now - e.last_change_time in
      let mix_tt = fast_exp_neg fl (mul (neg decay) (of_u64 dt_since_left)) in
      let mix_tp = fast_exp_neg fl (mul (neg decay) (of_u64 dt_since_change)) in
      record {
        state = new_state;
        last_change_time = now;
        state_last_left = write e.state_last_left old_state now;
        time_to_leave = update_ttl old_state mix_tt (of_u64 dt_since_change) e.time_to_leave;
        transition_prob =
            for4 (update_row (state_index old_state) (state_index new_state) mix_tp)
              e.transition_prob;
        both_running_time = e.both_running_time;
      }

  unfoldable pub update_state : EdgeRef fl → MarkovState → ℕ → F32 → EdgeRef fl
  update_state e new_state now decay =
      ite (MarkovState-discrete new_state e.state) e (change_state e new_state now decay)
