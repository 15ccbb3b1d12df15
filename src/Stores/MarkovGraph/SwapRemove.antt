-- ===== src/Stores/MarkovGraph/SwapRemove.antt =====
-- `swap_remove` of an edge: it never panics in bounds, keeps the graph valid, and removes exactly
-- the edge of the removed key.
use preload_ng.Prelude.{
  ℕ, zero, suc, ◌+◌, ◌-◌, ◌<◌, ◌≡◌, refl, inl, inr, ite, none, some, List, [], ◌∷◌, arith, ltb,
  ◌==◌, if◌then◌else◌, Option-cases, length, get_elem?, set, get_elem?-lt, get_elem?-exists,
  length-set, get_elem?-set,
}
use preload_ng.Prelude.HashMap as Map
use preload_ng.Floats.{Floats}
use preload_ng.Stores.EdgeKey.{EdgeKey, EdgeKey-discrete}
use preload_ng.Stores.MarkovGraph.Defs.{
  MarkovGraph, edge_at, pop, swap_remove_vec, reindex, swap_remove,
}
use preload_ng.Stores.MarkovGraph.Index.{find, IsValid}

module _ {A : Type 0} where
  length-pop : (xs : List A) → length (pop xs) ≡ length xs - 1
  unfolding pop
  length-pop [] = omega arith
  length-pop (x ∷ []) = omega arith
  length-pop (x ∷ y ∷ xs) = omega (arith, length-pop (y ∷ xs))

  get_elem?-pop :
      (xs : List A) (j : ℕ)
      → get_elem? (pop xs) j ≡ (if ltb j (length xs - 1) then get_elem? xs j else none)
  unfolding pop
  get_elem?-pop [] j = ground arith
  get_elem?-pop (x ∷ []) zero = ground arith
  get_elem?-pop (x ∷ []) (suc j) = ground arith
  get_elem?-pop (x ∷ y ∷ xs) zero = ground arith
  get_elem?-pop (x ∷ y ∷ xs) (suc j) = ground (arith, get_elem?-pop (y ∷ xs) j)

  -- `Vec::swap_remove` in bounds: the last element stands at the removed position.
  pub record Swapped (xs : List A) (i : ℕ) (ys : List A) : Type 0 where
    pub shorter : length ys + 1 ≡ length xs
    pub moved :
        (j : ℕ)
        → get_elem? ys j ≡ (
            if ltb j (length xs - 1)
            then (if i == j then get_elem? xs (length xs - 1) else get_elem? xs j)
            else none)

  pub swap_remove_vec_lem :
      (xs : List A) (i : ℕ)
      → i < length xs
      → (ys : List A) × (swap_remove_vec xs i ≡ some ys) × Swapped xs i ys
  unfolding swap_remove_vec
  swap_remove_vec_lem xs i h =
      let (last, e) = get_elem?-exists xs (length xs - 1) (omega arith) in
      (
        pop (set xs i last),
        ground arith,
        record {
          shorter = omega (arith, length-pop (set xs i last), length-set xs i last);
          moved = λ j. ground (
            arith,
            get_elem?-pop (set xs i last) j,
            get_elem?-set xs i last j h,
            length-set xs i last,
          );
        },
      )

module _ {fl : Floats} where
  -- What `swap_remove` at position `i` makes of the graph.
  pub record Removed (g : MarkovGraph fl) (i : ℕ) (g' : MarkovGraph fl) : Type 0 where
    pub keys : Swapped g.keys i g'.keys
    pub states : Swapped g.states i g'.states
    pub last_change_times : Swapped g.last_change_times i g'.last_change_times
    pub state_last_left : Swapped g.state_last_left i g'.state_last_left
    pub time_to_leave : Swapped g.time_to_leave i g'.time_to_leave
    pub transition_prob : Swapped g.transition_prob i g'.transition_prob
    pub both_running_times : Swapped g.both_running_times i g'.both_running_times
    pub reindexed : reindex g i ≡ some g'.key_to_index

  swap_remove-Removed :
      (g : MarkovGraph fl) (i : ℕ)
      → IsValid g
      → i < length g.keys
      → (g' : MarkovGraph fl) × (swap_remove g i ≡ some g') × Removed g i g'
  unfolding swap_remove reindex
  swap_remove-Removed g i v h =
      let (last, el) = get_elem?-exists g.keys (length g.keys - 1) (omega arith) in
      let (old, eo) = get_elem?-exists g.keys i h in
      let (ks, ek, sk) = swap_remove_vec_lem g.keys i h in
      let (a, ea, sa) = swap_remove_vec_lem g.states i (omega (arith, v.states)) in
      let (b, eb, sb) =
        swap_remove_vec_lem g.last_change_times i (omega (arith, v.last_change_times)) in
      let (c, ec, sc) =
        swap_remove_vec_lem g.state_last_left i (omega (arith, v.state_last_left)) in
      let (d, ed, sd) = swap_remove_vec_lem g.time_to_leave i (omega (arith, v.time_to_leave)) in
      let (p, ep, sp) =
        swap_remove_vec_lem g.transition_prob i (omega (arith, v.transition_prob)) in
      let (r, er, sr) =
        swap_remove_vec_lem g.both_running_times i (omega (arith, v.both_running_times)) in
      (
        record {
          keys = ks;
          states = a;
          last_change_times = b;
          state_last_left = c;
          time_to_leave = d;
          transition_prob = p;
          both_running_times = r;
          key_to_index =
              Map.remove EdgeKey-discrete
                (if i == length g.keys - 1
                  then g.key_to_index
                  else Map.insert EdgeKey-discrete g.key_to_index last i)
                old;
        },
        rw (el, eo, ek, ea, eb, ec, ed, ep, er) refl,
        record {
          keys = sk;
          states = sa;
          last_change_times = sb;
          state_last_left = sc;
          time_to_leave = sd;
          transition_prob = sp;
          both_running_times = sr;
          reindexed = rw (el, eo) refl;
        },
      )

  -- The positions after `swap_remove`.
  get-reindex :
      (g : MarkovGraph fl) (i : ℕ) (old last k : EdgeKey) {m : Map.HashMap EdgeKey ℕ}
      → reindex g i ≡ some m
      → get_elem? g.keys i ≡ some old
      → get_elem? g.keys (length g.keys - 1) ≡ some last
      → Map.get EdgeKey-discrete m k
        ≡ ite (EdgeKey-discrete old k) none (
            if i == length g.keys - 1
            then Map.get EdgeKey-discrete g.key_to_index k
            else ite (EdgeKey-discrete last k) (some i) (Map.get EdgeKey-discrete g.key_to_index k))
  unfolding reindex
  get-reindex g i old last k {m} e eo el = ground (
    arith,
    Map.get-remove EdgeKey-discrete g.key_to_index old k,
    Map.get-remove EdgeKey-discrete (Map.insert EdgeKey-discrete g.key_to_index last i) old k,
    Map.get-insert EdgeKey-discrete g.key_to_index last i k,
  )

  module _ (g g' : MarkovGraph fl) (i : ℕ) (v : IsValid g) (r : Removed g i g') (old : EdgeKey)
      (at_i : get_elem? g.keys i ≡ some old) where
    Removed-IsValid : IsValid g'
    Removed-IsValid =
        let (last, el) =
          get_elem?-exists g.keys (length g.keys - 1) (omega (arith, get_elem?-lt g.keys i at_i)) in
        record {
          states = omega (arith, v.states, r.states.shorter, r.keys.shorter);
          last_change_times =
              omega (arith, v.last_change_times, r.last_change_times.shorter, r.keys.shorter);
          state_last_left =
              omega (arith, v.state_last_left, r.state_last_left.shorter, r.keys.shorter);
          time_to_leave = omega (arith, v.time_to_leave, r.time_to_leave.shorter, r.keys.shorter);
          transition_prob =
              omega (arith, v.transition_prob, r.transition_prob.shorter, r.keys.shorter);
          both_running_times =
              omega (arith, v.both_running_times, r.both_running_times.shorter, r.keys.shorter);
          indexed = λ k j h. ground (
            arith,
            get-reindex g i old last k r.reindexed at_i el,
            r.keys.moved j,
            v.indexed k j,
            v.listed old i at_i,
            v.listed last (length g.keys - 1) el,
            λ (q : get_elem? g.keys j ≡ some k). get_elem?-lt g.keys j q,
            get_elem?-lt g.keys i at_i,
          );
          listed = λ k j h. ground (
            arith,
            get-reindex g i old last k r.reindexed at_i el,
            r.keys.moved j,
            v.listed k j,
            v.listed old i at_i,
            v.listed last (length g.keys - 1) el,
            get_elem?-lt g.keys i at_i,
          );
        }

    -- Below the new length, the edge at a position is the old one, or the moved last one.
    edge_at-Removed :
        (j : ℕ)
        → edge_at g' j ≡ (
            if ltb j (length g.keys - 1)
            then (if i == j then edge_at g (length g.keys - 1) else edge_at g j)
            else none)
    unfolding edge_at
    edge_at-Removed j = ground (
      arith,
      v.states,
      v.last_change_times,
      v.state_last_left,
      v.time_to_leave,
      v.transition_prob,
      v.both_running_times,
      r.states.moved j,
      r.last_change_times.moved j,
      r.state_last_left.moved j,
      r.time_to_leave.moved j,
      r.transition_prob.moved j,
      r.both_running_times.moved j,
    )

    find-Removed : (k : EdgeKey) → find g' k ≡ ite (EdgeKey-discrete old k) none (find g k)
    unfolding find
    find-Removed k =
        let (last, el) =
          get_elem?-exists g.keys (length g.keys - 1) (omega (arith, get_elem?-lt g.keys i at_i)) in
        elim (Option-cases (Map.get EdgeKey-discrete g.key_to_index k)) [
          | inl absent ↦ ground (
            arith,
            get-reindex g i old last k r.reindexed at_i el,
            v.listed last (length g.keys - 1) el,
          )
          | inr (j, there) ↦
              let below = get_elem?-lt g.keys j (v.indexed k j there) in
              ground (
                arith,
                get-reindex g i old last k r.reindexed at_i el,
                v.indexed k j there,
                v.listed last (length g.keys - 1) el,
                edge_at-Removed j,
                edge_at-Removed i,
                v.listed old i at_i,
                get_elem?-lt g.keys i at_i,
              )
        ]

  -- In bounds `swap_remove` returns a valid graph that has lost exactly the edge of the key at the
  -- position, and holds the keys below the position where they were.
  pub swap_remove_lem :
      (g : MarkovGraph fl) (i : ℕ) (old : EdgeKey)
      → IsValid g
      → get_elem? g.keys i ≡ some old
      → (g' : MarkovGraph fl) × (swap_remove g i ≡ some g')
        × IsValid g'
        × (length g'.keys + 1 ≡ length g.keys)
        × ((k : EdgeKey) → find g' k ≡ ite (EdgeKey-discrete old k) none (find g k))
        × ((j : ℕ) → j < i → get_elem? g'.keys j ≡ get_elem? g.keys j)
  swap_remove_lem g i old v at_i =
      let (g', e, r) = swap_remove-Removed g i v (get_elem?-lt g.keys i at_i) in
      (
        g',
        e,
        Removed-IsValid g g' i v r old at_i,
        r.keys.shorter,
        find-Removed g g' i v r old at_i,
        λ j h. ground (arith, r.keys.moved j, get_elem?-lt g.keys i at_i),
      )
