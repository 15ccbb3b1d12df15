-- ===== src/Stores/MarkovGraph/Read.antt =====
-- `get_mut` of crates/orchestrator/src/stores/markov_graph.rs, against the seven arrays.
use preload_ng.Prelude.{
  ℕ, ◌≡◌, refl, ◌≢◌, ◌⊎◌, inl, inr, none, some, arith, Option-cases, get_elem?, get_elem?-lt,
  get_elem?-exists,
}
use preload_ng.Prelude.HashMap as Map
use preload_ng.Floats.{Floats}
use preload_ng.Stores.EdgeKey.{EdgeKey, EdgeKey-discrete}
use preload_ng.Stores.MarkovGraph.Edge.{EdgeRef}
use preload_ng.Stores.MarkovGraph.Defs.{MarkovGraph, edge_at, get}
use preload_ng.Stores.MarkovGraph.Index.{IsValid}

module _ {fl : Floats} where
  -- The edge stands at this position: each of its parts in the array of that part.
  pub record StandsAt (g : MarkovGraph fl) (i : ℕ) (e : EdgeRef fl) : Type 0 where
    pub state : get_elem? g.states i ≡ some e.state
    pub last_change_time : get_elem? g.last_change_times i ≡ some e.last_change_time
    pub state_last_left : get_elem? g.state_last_left i ≡ some e.state_last_left
    pub time_to_leave : get_elem? g.time_to_leave i ≡ some e.time_to_leave
    pub transition_prob : get_elem? g.transition_prob i ≡ some e.transition_prob
    pub both_running_time : get_elem? g.both_running_times i ≡ some e.both_running_time

  edge_at-StandsAt :
      (g : MarkovGraph fl) (i : ℕ) (k : EdgeKey)
      → IsValid g
      → get_elem? g.keys i ≡ some k
      → (e : EdgeRef fl) × (edge_at g i ≡ some e) × StandsAt g i e
  unfolding edge_at
  edge_at-StandsAt g i k v at_i =
      let h = get_elem?-lt g.keys i at_i in
      let (a, ea) = get_elem?-exists g.states i (omega (arith, v.states)) in
      let (b, eb) = get_elem?-exists g.last_change_times i (omega (arith, v.last_change_times)) in
      let (c, ec) = get_elem?-exists g.state_last_left i (omega (arith, v.state_last_left)) in
      let (d, ed) = get_elem?-exists g.time_to_leave i (omega (arith, v.time_to_leave)) in
      let (p, ep) = get_elem?-exists g.transition_prob i (omega (arith, v.transition_prob)) in
      let (r, er) = get_elem?-exists g.both_running_times i (omega (arith, v.both_running_times)) in
      (
        record {
          state = a;
          last_change_time = b;
          state_last_left = c;
          time_to_leave = d;
          transition_prob = p;
          both_running_time = r;
        },
        rw (ea, eb, ec, ed, ep, er) refl,
        record {
          state = ea;
          last_change_time = eb;
          state_last_left = ec;
          time_to_leave = ed;
          transition_prob = ep;
          both_running_time = er;
        },
      )

  -- On a valid graph `get_mut` never panics. A key that stands at a position of the array of keys
  -- gets the edge whose parts stand at that position of the other six arrays, and a key that stands
  -- at none gets nothing.
  pub get_lem :
      (g : MarkovGraph fl) (k : EdgeKey)
      → IsValid g
      → ((get g k ≡ some none) × ((i : ℕ) → get_elem? g.keys i ≢ some k))
        ⊎ ((i : ℕ) × (e : EdgeRef fl) × (get g k ≡ some (some e))
            × (get_elem? g.keys i ≡ some k)
            × StandsAt g i e)
  unfolding get
  get_lem g k v = elim (Option-cases (Map.get EdgeKey-discrete g.key_to_index k)) [
    | inl absent ↦
        inl (rw (absent, get) refl, (λ i at_i. ground (arith, absent, v.listed k i at_i)))
    | inr (i, there) ↦
        let at_i = v.indexed k i there in
        let (e, found, stands) = edge_at-StandsAt g i k v at_i in
        inr (i, e, rw (there, get, found) refl, at_i, stands)
  ]
