-- ===== src/Stores/MarkovGraph/Prune.antt =====
-- `prune_inactive` against its description: the edges between active exes, and no others.
use preload_ng.Prelude.{
  ℕ, zero, suc, ◌+◌, ◌≤◌, ◌<◌, ◌≡◌, refl, inl, inr, Bool, true, ◌&&◌, none, some, arith, ℕ_discrete,
  if◌then◌else◌, Bool-cases, Option-cases, length, get_elem?, get_elem?-lt, get_elem?-exists,
  get_elem?-ge,
}
use preload_ng.Prelude.HashMap as Map
use preload_ng.Prelude.HashMap.{HashSet, contains}
use preload_ng.Floats.{Floats}
use preload_ng.Stores.EdgeKey.{EdgeKey, EdgeKey-discrete}
use preload_ng.Stores.MarkovGraph.Defs.{MarkovGraph, prune_from, prune_inactive}
use preload_ng.Stores.MarkovGraph.SwapRemove.{swap_remove_lem}
use preload_ng.Stores.MarkovGraph.Index.{IsValid, find}

-- Both ends of the key are active.
abbrev pub is_active : HashSet ℕ → EdgeKey → Bool
is_active active k = contains ℕ_discrete active k.a && contains ℕ_discrete active k.b

module _ {fl : Floats} (active : HashSet ℕ) where
  -- The graph that is left of `g`.
  pub record Pruned (g g' : MarkovGraph fl) : Type 0 where
    pub valid : IsValid g'
    pub kept : (k : EdgeKey) → find g' k ≡ (if is_active active k then find g k else none)

  -- The keys below the position have been looked at.
  abbrev Looked : MarkovGraph fl → ℕ → Type 0
  Looked g i =
      (j : ℕ) (k : EdgeKey) → j < i → get_elem? g.keys j ≡ some k → is_active active k ≡ true

  Looked-Pruned :
      (g : MarkovGraph fl) (i : ℕ) → IsValid g → Looked g i → get_elem? g.keys i ≡ none → Pruned g g
  unfolding find
  Looked-Pruned g i v looked done = record {
    valid = v;
    kept = λ k. elim (Option-cases (Map.get EdgeKey-discrete g.key_to_index k)) [
      | inl absent ↦ ground arith
      | inr (j, there) ↦
          let at_j = v.indexed k j there in
          ground (
            arith,
            looked j k,
            get_elem?-lt g.keys j at_j,
            λ (q : length g.keys ≤ i). get_elem?-ge g.keys i q,
            λ (q : i < length g.keys). get_elem?-exists g.keys i q,
          )
    ];
  }

  prune_from_lem :
      (fuel : ℕ) (g : MarkovGraph fl) (i : ℕ)
      → IsValid g
      → Looked g i
      → i ≤ length g.keys
      → length g.keys < fuel + i
      → (g' : MarkovGraph fl) × (prune_from fuel active g i ≡ some g') × Pruned g g'
  unfolding prune_from
  prune_from_lem zero g i v looked low h = absurd (omega arith)
  prune_from_lem (suc fuel) g i v looked low h = elim (Option-cases (get_elem? g.keys i)) [
    | inl done ↦ (g, rw (done, prune_from) refl, Looked-Pruned g i v looked done)
    | inr (key, at_i) ↦ elim (Bool-cases (is_active active key)) [
      | inl kept ↦
          let (g', e, p) =
            prune_from_lem fuel g (suc i) v (λ j k q at_j. ground (arith, looked j k))
              (get_elem?-lt g.keys i at_i) (omega arith) in
          (g', rw (at_i, prune_from, kept) e, p)
      | inr inactive ↦
          let (g1, e1, v1, shorter, found, same) = swap_remove_lem g i key v at_i in
          let (g', e, p) =
            prune_from_lem fuel g1 i v1 (λ j k q at_j. ground (arith, same j q, looked j k))
              (omega (arith, get_elem?-lt g.keys i at_i)) (omega arith) in
          (
            g',
            rw (at_i, prune_from, inactive, e1) e,
            record { valid = p.valid; kept = λ k. ground (arith, p.kept k, found k) },
          )
    ]
  ]

  -- On a valid graph `prune_inactive` ends without a panic, with a valid graph that holds exactly
  -- the edges whose two exes are active, each with its data unchanged.
  pub prune_inactive_lem :
      (g : MarkovGraph fl)
      → IsValid g
      → (g' : MarkovGraph fl) × (prune_inactive g active ≡ some g') × Pruned g g'
  unfolding prune_inactive
  prune_inactive_lem g v =
      prune_from_lem (suc (length g.keys)) g 0 v (λ j k q at_j. absurd (omega arith)) (omega arith)
        (omega arith)
