-- ===== src/Stores/MarkovGraph/Defs.antt =====
-- The graph: seven arrays with the same positions, and the position of each key. An index that is
-- out of bounds panics, which is `none` here.
use preload_ng.Prelude.{
  ℕ, zero, suc, ◌-◌, Bool, true, false, ◌&&◌, Option, none, some, List, [], ◌∷◌, ◌++◌, ℕ_discrete,
  ltb, ◌==◌, if◌then◌else◌, length, get_elem?, set,
}
use preload_ng.Prelude.Options.{◌>>=◌}
use preload_ng.Prelude.HashMap as Map
use preload_ng.Prelude.HashMap.{HashMap, HashSet, contains}
use preload_ng.Domain.{MarkovState}
use preload_ng.Floats.{Floats}
use preload_ng.Stores.EdgeKey.{EdgeKey, EdgeKey-discrete, new_edge_key}
use preload_ng.Stores.MarkovGraph.FourStates.{Array4, fill}
use preload_ng.Stores.MarkovGraph.Edge.{EdgeRef}

pub record MarkovGraph (fl : Floats) : Type 0 where
  pub keys : List EdgeKey
  pub states : List MarkovState
  pub last_change_times : List ℕ
  pub state_last_left : List (Array4 ℕ)
  pub time_to_leave : List (Array4 fl.F16)
  pub transition_prob : List (Array4 (Array4 fl.F16))
  pub both_running_times : List ℕ
  pub key_to_index : HashMap EdgeKey ℕ

-- `Vec::swap_remove`: the last element takes the place of the removed one.
module _ {A : Type 0} where
  unfoldable pub pop : List A → List A
  pop [] = []
  pop (x ∷ []) = []
  pop (x ∷ y ∷ xs) = x ∷ pop (y ∷ xs)

  unfoldable pub swap_remove_vec : List A → ℕ → Option (List A)
  swap_remove_vec xs i = elim (get_elem? xs (length xs - 1)) [
    | none ↦ none
    | some last ↦ if ltb i (length xs) then some (pop (set xs i last)) else none
  ]

module _ {fl : Floats} where
  open fl use {zero16}

  abbrev pub empty : MarkovGraph fl
  empty = record {
    keys = [];
    states = [];
    last_change_times = [];
    state_last_left = [];
    time_to_leave = [];
    transition_prob = [];
    both_running_times = [];
    key_to_index = [];
  }

  unfoldable pub ensure_edge : MarkovGraph fl → ℕ → ℕ → ℕ → MarkovState → Bool × MarkovGraph fl
  ensure_edge g a b now state =
      let key = new_edge_key a b in
      if Map.contains_key EdgeKey-discrete g.key_to_index key then (false, g) else (
        true,
        record {
          keys = g.keys ++ key ∷ [];
          states = g.states ++ state ∷ [];
          last_change_times = g.last_change_times ++ now ∷ [];
          state_last_left = g.state_last_left ++ fill now ∷ [];
          time_to_leave = g.time_to_leave ++ fill zero16 ∷ [];
          transition_prob = g.transition_prob ++ fill (fill zero16) ∷ [];
          both_running_times = g.both_running_times ++ 0 ∷ [];
          key_to_index = Map.insert EdgeKey-discrete g.key_to_index key (length g.keys);
        },
      )

  -- The edge at a position: a read of each array.
  unfoldable pub edge_at : MarkovGraph fl → ℕ → Option (EdgeRef fl)
  edge_at g i = do
    state ← get_elem? g.states i
    last_change_time ← get_elem? g.last_change_times i
    state_last_left ← get_elem? g.state_last_left i
    time_to_leave ← get_elem? g.time_to_leave i
    transition_prob ← get_elem? g.transition_prob i
    both_running_time ← get_elem? g.both_running_times i
    some (record {
      state = state;
      last_change_time = last_change_time;
      state_last_left = state_last_left;
      time_to_leave = time_to_leave;
      transition_prob = transition_prob;
      both_running_time = both_running_time;
    })

  -- A read through `get_mut`: `some none` where the key has no edge.
  unfoldable pub get : MarkovGraph fl → EdgeKey → Option (Option (EdgeRef fl))
  get g key = elim (Map.get EdgeKey-discrete g.key_to_index key) [
    | none ↦ some none
    | some idx ↦ do e ← edge_at g idx; some (some e)
  ]

  -- The writes through an `EdgeRefMut` at a position.
  unfoldable pub put_at : MarkovGraph fl → ℕ → EdgeRef fl → MarkovGraph fl
  put_at g i e = record g {
    states = set g.states i e.state;
    last_change_times = set g.last_change_times i e.last_change_time;
    state_last_left = set g.state_last_left i e.state_last_left;
    time_to_leave = set g.time_to_leave i e.time_to_leave;
    transition_prob = set g.transition_prob i e.transition_prob;
    both_running_times = set g.both_running_times i e.both_running_time;
  }

  -- The position of the last edge is changed first, and then the key of the removed edge goes.
  unfoldable pub reindex : MarkovGraph fl → ℕ → Option (HashMap EdgeKey ℕ)
  reindex g idx = do
    moved_key ← get_elem? g.keys (length g.keys - 1)
    removed_key ← get_elem? g.keys idx
    let moved =
        if idx == length g.keys - 1
        then g.key_to_index
        else Map.insert EdgeKey-discrete g.key_to_index moved_key idx
    some (Map.remove EdgeKey-discrete moved removed_key)

  unfoldable pub swap_remove : MarkovGraph fl → ℕ → Option (MarkovGraph fl)
  swap_remove g idx = do
    key_to_index ← reindex g idx
    keys ← swap_remove_vec g.keys idx
    states ← swap_remove_vec g.states idx
    last_change_times ← swap_remove_vec g.last_change_times idx
    state_last_left ← swap_remove_vec g.state_last_left idx
    time_to_leave ← swap_remove_vec g.time_to_leave idx
    transition_prob ← swap_remove_vec g.transition_prob idx
    both_running_times ← swap_remove_vec g.both_running_times idx
    some (record {
      keys = keys;
      states = states;
      last_change_times = last_change_times;
      state_last_left = state_last_left;
      time_to_leave = time_to_leave;
      transition_prob = transition_prob;
      both_running_times = both_running_times;
      key_to_index = key_to_index;
    })

  -- The `while` loop of `prune_inactive`, on fuel: an answer `none` is a panic or too little fuel.
  unfoldable pub prune_from : ℕ → HashSet ℕ → MarkovGraph fl → ℕ → Option (MarkovGraph fl)
  prune_from zero active g i = none
  prune_from (suc fuel) active g i = elim (get_elem? g.keys i) [
    | none ↦ some g
    | some key ↦ elim (contains ℕ_discrete active key.a && contains ℕ_discrete active key.b) [
      | true ↦ prune_from fuel active g (suc i)
      | false ↦ swap_remove g i >>= λ g'. prune_from fuel active g' i
    ]
  ]

  -- Each round leaves one edge less to look at, so a round for each edge and one more are enough.
  unfoldable pub prune_inactive : MarkovGraph fl → HashSet ℕ → Option (MarkovGraph fl)
  unfolding prune_from
  prune_inactive g active = prune_from (suc (length g.keys)) active g 0
