-- ===== src/Stores/MarkovGraph/Index.antt =====
-- The arrays and the positions agree, and the graph is a finite map from keys to edges.
use preload_ng.Prelude.{
  ℕ, ◌<◌, ◌≡◌, refl, inl, inr, ite, true, false, Option, none, some, [], ◌∷◌, ◌++◌, arith, ◌==◌,
  if◌then◌else◌, Option-cases, length, get_elem?, length-append, get_elem?-lt, get_elem?-exists,
  get_elem?-snoc,
}
use preload_ng.Prelude.HashMap as Map
use preload_ng.Domain.{MarkovState}
use preload_ng.Floats.{Floats}
use preload_ng.Stores.EdgeKey.{EdgeKey, EdgeKey-discrete, new_edge_key}
use preload_ng.Stores.MarkovGraph.FourStates.{fill}
use preload_ng.Stores.MarkovGraph.Edge.{EdgeRef}
use preload_ng.Stores.MarkovGraph.Defs.{MarkovGraph, empty, ensure_edge, edge_at}

module _ {fl : Floats} where
  -- All arrays have one length, and a key leads to its one position.
  pub record IsValid (g : MarkovGraph fl) : Type 0 where
    pub states : length g.states ≡ length g.keys
    pub last_change_times : length g.last_change_times ≡ length g.keys
    pub state_last_left : length g.state_last_left ≡ length g.keys
    pub time_to_leave : length g.time_to_leave ≡ length g.keys
    pub transition_prob : length g.transition_prob ≡ length g.keys
    pub both_running_times : length g.both_running_times ≡ length g.keys
    pub indexed :
        (k : EdgeKey) (i : ℕ)
        → Map.get EdgeKey-discrete g.key_to_index k ≡ some i
        → get_elem? g.keys i ≡ some k
    pub listed :
        (k : EdgeKey) (i : ℕ)
        → get_elem? g.keys i ≡ some k
        → Map.get EdgeKey-discrete g.key_to_index k ≡ some i

  -- The edge of a key, if it has one.
  unfoldable pub find : MarkovGraph fl → EdgeKey → Option (EdgeRef fl)
  find g k = elim (Map.get EdgeKey-discrete g.key_to_index k) [ none ↦ none | some i ↦ edge_at g i ]

  -- A position in bounds has an edge.
  pub edge_at-exists :
      (g : MarkovGraph fl) (i : ℕ)
      → IsValid g
      → i < length g.keys
      → (e : EdgeRef fl) × (edge_at g i ≡ some e)
  unfolding edge_at
  edge_at-exists g i v h =
      let (a, ea) = get_elem?-exists g.states i (omega (arith, v.states)) in
      let (b, eb) = get_elem?-exists g.last_change_times i (omega (arith, v.last_change_times)) in
      let (c, ec) = get_elem?-exists g.state_last_left i (omega (arith, v.state_last_left)) in
      let (d, ed) = get_elem?-exists g.time_to_leave i (omega (arith, v.time_to_leave)) in
      let (p, ep) = get_elem?-exists g.transition_prob i (omega (arith, v.transition_prob)) in
      let (r, er) = get_elem?-exists g.both_running_times i (omega (arith, v.both_running_times)) in
      (
        record {
          state = a;
          last_change_time = b;
          state_last_left = c;
          time_to_leave = d;
          transition_prob = p;
          both_running_time = r;
        },
        rw (ea, eb, ec, ed, ep, er) refl,
      )

  pub empty-IsValid : IsValid (empty {fl = fl})
  unfolding Map.get
  empty-IsValid = record {
    states = refl;
    last_change_times = refl;
    state_last_left = refl;
    time_to_leave = refl;
    transition_prob = refl;
    both_running_times = refl;
    indexed = λ k i h. absurd (cc);
    listed = λ k i h. absurd (cc);
  }

  -- The edge that `ensure_edge` adds.
  abbrev pub new_edge : ℕ → MarkovState → EdgeRef fl
  new_edge now state = record {
    state = state;
    last_change_time = now;
    state_last_left = fill now;
    time_to_leave = fill fl.zero16;
    transition_prob = fill (fill fl.zero16);
    both_running_time = 0;
  }

  -- The two branches of `ensure_edge`.
  pub ensure_edge_known :
      (g : MarkovGraph fl) (a b now : ℕ) (state : MarkovState) (i : ℕ)
      → Map.get EdgeKey-discrete g.key_to_index (new_edge_key a b) ≡ some i
      → ensure_edge g a b now state ≡ (false, g)
  unfolding ensure_edge
  ensure_edge_known g a b now state i h = ground arith

  abbrev appended : MarkovGraph fl → EdgeKey → ℕ → MarkovState → MarkovGraph fl
  appended g key now state = record {
    keys = g.keys ++ key ∷ [];
    states = g.states ++ state ∷ [];
    last_change_times = g.last_change_times ++ now ∷ [];
    state_last_left = g.state_last_left ++ fill now ∷ [];
    time_to_leave = g.time_to_leave ++ fill fl.zero16 ∷ [];
    transition_prob = g.transition_prob ++ fill (fill fl.zero16) ∷ [];
    both_running_times = g.both_running_times ++ 0 ∷ [];
    key_to_index = Map.insert EdgeKey-discrete g.key_to_index key (length g.keys);
  }

  pub ensure_edge_new :
      (g : MarkovGraph fl) (a b now : ℕ) (state : MarkovState)
      → Map.get EdgeKey-discrete g.key_to_index (new_edge_key a b) ≡ none
      → ensure_edge g a b now state ≡ (true, appended g (new_edge_key a b) now state)
  unfolding ensure_edge
  ensure_edge_new g a b now state h = ground arith

  appended-IsValid :
      (g : MarkovGraph fl) (key : EdgeKey) (now : ℕ) (state : MarkovState)
      → IsValid g
      → Map.get EdgeKey-discrete g.key_to_index key ≡ none
      → IsValid (appended g key now state)
  appended-IsValid g key now state v new = record {
    states =
        omega
          (arith, v.states, length-append g.states (state ∷ []), length-append g.keys (key ∷ []));
    last_change_times = omega (
      arith,
      v.last_change_times,
      length-append g.last_change_times (now ∷ []),
      length-append g.keys (key ∷ []),
    );
    state_last_left = omega (
      arith,
      v.state_last_left,
      length-append g.state_last_left (fill now ∷ []),
      length-append g.keys (key ∷ []),
    );
    time_to_leave = omega (
      arith,
      v.time_to_leave,
      length-append g.time_to_leave (fill fl.zero16 ∷ []),
      length-append g.keys (key ∷ []),
    );
    transition_prob = omega (
      arith,
      v.transition_prob,
      length-append g.transition_prob (fill (fill fl.zero16) ∷ []),
      length-append g.keys (key ∷ []),
    );
    both_running_times = omega (
      arith,
      v.both_running_times,
      length-append g.both_running_times (0 ∷ []),
      length-append g.keys (key ∷ []),
    );
    indexed = λ k i h. ground (
      arith,
      Map.get-insert EdgeKey-discrete g.key_to_index key (length g.keys) k,
      get_elem?-snoc g.keys key i,
      v.indexed k i,
      λ (h' : get_elem? g.keys i ≡ some k). get_elem?-lt g.keys i h',
    );
    listed = λ k i h. ground (
      arith,
      Map.get-insert EdgeKey-discrete g.key_to_index key (length g.keys) k,
      get_elem?-snoc g.keys key i,
      v.listed k i,
    );
  }

  pub ensure_edge-IsValid :
      (g : MarkovGraph fl) (a b now : ℕ) (state : MarkovState)
      → IsValid g
      → IsValid (ensure_edge g a b now state).1
  ensure_edge-IsValid g a b now state v =
      elim (Option-cases (Map.get EdgeKey-discrete g.key_to_index (new_edge_key a b))) [
        | inr (i, there) ↦ rw (ensure_edge_known g a b now state i there) v
        | inl new ↦
            rw (ensure_edge_new g a b now state new)
              (appended-IsValid g (new_edge_key a b) now state v new)
      ]

  edge_at-appended :
      (g : MarkovGraph fl) (key : EdgeKey) (now : ℕ) (state : MarkovState) (i : ℕ)
      → IsValid g
      → edge_at (appended g key now state) i
        ≡ (if i == length g.keys then some (new_edge now state) else edge_at g i)
  unfolding edge_at
  edge_at-appended g key now state i v = ground (
    arith,
    v.states,
    v.last_change_times,
    v.state_last_left,
    v.time_to_leave,
    v.transition_prob,
    v.both_running_times,
    get_elem?-snoc g.states state i,
    get_elem?-snoc g.last_change_times now i,
    get_elem?-snoc g.state_last_left (fill now) i,
    get_elem?-snoc g.time_to_leave (fill fl.zero16) i,
    get_elem?-snoc g.transition_prob (fill (fill fl.zero16)) i,
    get_elem?-snoc g.both_running_times 0 i,
  )

  find-appended :
      (g : MarkovGraph fl) (key k : EdgeKey) (now : ℕ) (state : MarkovState)
      → IsValid g
      → Map.get EdgeKey-discrete g.key_to_index key ≡ none
      → find (appended g key now state) k
        ≡ ite
            (EdgeKey-discrete key k)
            (elim (find g k) [ none ↦ some (new_edge now state) | some old ↦ some old ])
            (find g k)
  unfolding find
  find-appended g key k now state v new =
      elim (Option-cases (Map.get EdgeKey-discrete g.key_to_index k)) [
        | inl absent ↦ ground (
          arith,
          Map.get-insert EdgeKey-discrete g.key_to_index key (length g.keys) k,
          edge_at-appended g key now state (length g.keys) v,
        )
        | inr (i, there) ↦
            let below = get_elem?-lt g.keys i (v.indexed k i there) in
            ground (
              arith,
              Map.get-insert EdgeKey-discrete g.key_to_index key (length g.keys) k,
              edge_at-appended g key now state i v,
            )
      ]

  pub find-ensure_edge :
      (g : MarkovGraph fl) (a b now : ℕ) (state : MarkovState) (k : EdgeKey)
      → IsValid g
      → (find (ensure_edge g a b now state).1 k
          ≡ ite
              (EdgeKey-discrete (new_edge_key a b) k)
              (elim (find g k) [ none ↦ some (new_edge now state) | some old ↦ some old ])
              (find g k))
        × ((ensure_edge g a b now state).0
            ≡ elim (find g (new_edge_key a b)) [ none ↦ true | some _ ↦ false ])
  unfolding find
  find-ensure_edge g a b now state k v =
      elim (Option-cases (Map.get EdgeKey-discrete g.key_to_index (new_edge_key a b))) [
        | inr (i, there) ↦
            let (e, at_i) =
              edge_at-exists g i v (get_elem?-lt g.keys i (v.indexed (new_edge_key a b) i there)) in
            rw (ensure_edge_known g a b now state i there) (ground arith)
        | inl new ↦
            rw (ensure_edge_new g a b now state new)
              (find-appended g (new_edge_key a b) k now state v new, ground arith)
      ]
