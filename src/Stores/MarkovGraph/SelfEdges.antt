-- ===== src/Stores/MarkovGraph/SelfEdges.antt =====
-- What docs/ADR.md asks of the graph beyond its arrays, that no exe has an edge with itself, and the
-- operations of crates/orchestrator/src/stores/markov_graph.rs that keep it.
use preload_ng.Prelude.{
  ℕ, ◌≡◌, subst, ◌≢◌, inl, inr, ite, true, false, none, some, arith, ◌==◌, Bool-cases, Option-cases,
  get_elem?, get_elem?-lt, get_elem?-snoc, length,
}
use preload_ng.Prelude.HashMap as Map
use preload_ng.Prelude.HashMap.{HashSet}
use preload_ng.Domain.{MarkovState}
use preload_ng.Floats.{Floats}
use preload_ng.Stores.EdgeKey.{EdgeKey, EdgeKey-discrete, new_edge_key}
use preload_ng.Stores.MarkovGraph.Edge.{EdgeRef}
use preload_ng.Stores.MarkovGraph.Defs.{MarkovGraph, ensure_edge, put_at}
use preload_ng.Stores.MarkovGraph.Index.{
  IsValid, find, edge_at-exists, new_edge, ensure_edge_known, ensure_edge_new, ensure_edge-IsValid,
  find-ensure_edge,
}
use preload_ng.Stores.MarkovGraph.Prune.{Pruned}

pub new_edge_key-distinct : (a b : ℕ) → a ≢ b → (new_edge_key a b).a ≢ (new_edge_key a b).b
unfolding new_edge_key
new_edge_key-distinct a b h = ground (arith, h)

module _ {fl : Floats} where
  -- Every key of the graph has this property.
  abbrev pub AllKeys : (EdgeKey → Type 0) → MarkovGraph fl → Type 0
  AllKeys Q g = (k : EdgeKey) (i : ℕ) → get_elem? g.keys i ≡ some k → Q k

  -- No exe has an edge with itself.
  abbrev pub HasNoSelfEdge : MarkovGraph fl → Type 0
  HasNoSelfEdge = AllKeys (λ k. k.a ≢ k.b)

  pub ensure_edge-AllKeys :
      (Q : EdgeKey → Type 0) (g : MarkovGraph fl) (a b now : ℕ) (state : MarkovState)
      → Q (new_edge_key a b)
      → AllKeys Q g
      → AllKeys Q (ensure_edge g a b now state).1
  ensure_edge-AllKeys Q g a b now state q all =
      elim (Option-cases (Map.get EdgeKey-discrete g.key_to_index (new_edge_key a b))) [
        | inr (i, there) ↦ rw (ensure_edge_known g a b now state i there) all
        | inl new ↦ rw (ensure_edge_new g a b now state new) (λ k i h.
            let snoc = get_elem?-snoc g.keys (new_edge_key a b) i in
            elim (Bool-cases (i == length g.keys)) [
              | inl last ↦ subst Q (ground (arith, snoc, h, last)) q
              | inr before ↦ all k i (ground (arith, snoc, h, before))
            ])
      ]

  pub put_at-AllKeys :
      (Q : EdgeKey → Type 0) (g : MarkovGraph fl) (i : ℕ) (e : EdgeRef fl)
      → AllKeys Q g
      → AllKeys Q (put_at g i e)
  unfolding put_at
  put_at-AllKeys Q g i e all = all

  -- What is left after `prune_inactive` was there before.
  pub Pruned-AllKeys :
      (Q : EdgeKey → Type 0) (active : HashSet ℕ) (g g' : MarkovGraph fl)
      → IsValid g
      → Pruned active g g'
      → AllKeys Q g
      → AllKeys Q g'
  unfolding find
  Pruned-AllKeys Q active g g' v p all k i at_i =
      let there = p.valid.listed k i at_i in
      let (e, found) = edge_at-exists g' i p.valid (get_elem?-lt g'.keys i at_i) in
      elim (Option-cases (Map.get EdgeKey-discrete g.key_to_index k)) [
        | inl absent ↦ absurd (ground (arith, p.kept k))
        | inr (j, before) ↦ all k j (v.indexed k j before)
      ]

  -- On a valid graph in which no exe has an edge with itself, `ensure_edge` for two different exes
  -- gives such a graph again: the arrays stay of one length, each key leads to its one position, and
  -- no exe has an edge with itself. It adds a new edge if the pair has none, reports whether it did,
  -- and else changes no edge.
  pub ensure_edge_lem :
      (g : MarkovGraph fl) (a b now : ℕ) (state : MarkovState) (k : EdgeKey)
      → IsValid g
      → HasNoSelfEdge g
      → a ≢ b
      → IsValid (ensure_edge g a b now state).1
        × HasNoSelfEdge (ensure_edge g a b now state).1
        × (find (ensure_edge g a b now state).1 k
            ≡ ite
                (EdgeKey-discrete (new_edge_key a b) k)
                (elim (find g k) [ none ↦ some (new_edge now state) | some old ↦ some old ])
                (find g k))
        × ((ensure_edge g a b now state).0
            ≡ elim (find g (new_edge_key a b)) [ none ↦ true | some _ ↦ false ])
  ensure_edge_lem g a b now state k v none_self differ =
      let (kept, reported) = find-ensure_edge g a b now state k v in
      (
        ensure_edge-IsValid g a b now state v,
        ensure_edge-AllKeys (λ key. key.a ≢ key.b) g a b now state
            (new_edge_key-distinct a b differ) none_self,
        kept,
        reported,
      )
