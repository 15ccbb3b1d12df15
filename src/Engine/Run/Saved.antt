-- ===== src/Engine/Run/Saved.antt =====
-- On valid stores `snapshot_from_stores` of crates/orchestrator/src/engine.rs does not panic.
use preload_ng.Prelude.{
  ℕ, suc, ◌+◌, ◌≤◌, ◌≡◌, refl, ◌≢◌, Option, none, some, List, [], ◌∷◌, arith, length,
}
use preload_ng.Error.{panic}
use preload_ng.Stores.EdgeKey.{EdgeKey}
use preload_ng.Stores.MarkovGraph.Index as Graph
use preload_ng.Stores.Model.{Env, Stores}
use preload_ng.Stores.Invariant.{IsValid}
use preload_ng.Engine.Snapshot.{MarkovRecord, StoresSnapshot, markov_records, snapshot_from_stores}
use preload_ng.Engine.Tick.{PreloadEngine, save}

exists : {A : Type 0} (o : Option A) → o ≢ none → (a : A) × (o ≡ some a)
exists none h = absurd (h refl)
exists (some a) h = (a, refl)

module _ {env : Env} where
  markov_records-returns :
      (st : Stores env)
      → IsValid st
      → (i : ℕ) (keys : List EdgeKey) → i + length keys ≤ length st.markov.keys
      → (rs : List (MarkovRecord env.floats)) × (markov_records env st i keys ≡ some rs)
  unfolding markov_records
  markov_records-returns st v i [] h = ([], refl)
  markov_records-returns st v i (key ∷ keys) h =
      let (edge, found) = Graph.edge_at-exists st.markov i v.markov (omega (arith, h)) in
      let (rest, more) = markov_records-returns st v (suc i) keys (omega (arith, h)) in
      exists (markov_records env st i (key ∷ keys)) (rw (markov_records, found, more) (λ e. cc))

  snapshot_from_stores-returns :
      (now : ℕ) (st : Stores env)
      → IsValid st
      → (s : StoresSnapshot env.floats) × (snapshot_from_stores env now st ≡ some s)
  unfolding snapshot_from_stores
  snapshot_from_stores-returns now st v =
      let (edges, found) = markov_records-returns st v 0 st.markov.keys (omega arith) in
      exists (snapshot_from_stores env now st) (rw (snapshot_from_stores, found) (λ e. cc))

  -- So a save panics only if the repository does.
  pub save-returns :
      {World : Type 0} (engine : PreloadEngine env World) (world : World)
      → IsValid engine.stores
      → ((s : StoresSnapshot env.floats) → (engine.services.save world s).0 ≢ panic)
      → (save engine world).0 ≢ panic
  unfolding save
  save-returns engine world v h =
      let (s, found) =
        snapshot_from_stores-returns (engine.services.system_time world) engine.stores v in
      rw (save, found) (h s)
