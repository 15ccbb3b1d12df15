-- ===== src/Stores/EdgeKey.antt =====
-- crates/orchestrator/src/stores/edge_key.rs: an unordered pair of exes, the smaller id first.

use preload_ng.Prelude.{ℕ, min, max, ◌≡◌, ◌↔◌, ◌⊎◌, arith, ℕ_discrete, ltb, if◌then◌else◌}

pub record EdgeKey : Type 0 where
  pub a : ℕ
  pub b : ℕ

pub EdgeKey-discrete : Discrete EdgeKey
EdgeKey-discrete = hlevel ℕ_discrete

unfoldable pub new_edge_key : ℕ → ℕ → EdgeKey
new_edge_key a b = if ltb a b then record { a = a; b = b } else record { a = b; b = a }

-- The key is the same whichever exe is named first, and its two ends are the given exes in
-- ascending order.
pub new_edge_key_lem :
    (a b : ℕ)
    → (new_edge_key a b ≡ new_edge_key b a)
      × ((new_edge_key a b).a ≡ min a b)
      × ((new_edge_key a b).b ≡ max a b)
unfolding new_edge_key
new_edge_key_lem a b = (ground arith, ground arith, ground arith)

-- Two keys are equal only for the same pair of exes.
pub new_edge_key-injective :
    (a b c d : ℕ) → new_edge_key a b ≡ new_edge_key c d → ((a ≡ c) × (b ≡ d)) ⊎ ((a ≡ d) × (b ≡ c))
unfolding new_edge_key
new_edge_key-injective a b c d e = ground arith

-- Two keys are equal exactly for the same two exes, in whichever order they are named, and the two
-- ends of a key are the given exes in ascending order.
pub new_edge_key-ends :
    (a b c d : ℕ)
    → ((new_edge_key a b ≡ new_edge_key c d) ↔ (((a ≡ c) × (b ≡ d)) ⊎ ((a ≡ d) × (b ≡ c))))
      × ((new_edge_key a b).a ≡ min a b)
      × ((new_edge_key a b).b ≡ max a b)
unfolding new_edge_key
new_edge_key-ends a b c d =
    let (_, low, high) = new_edge_key_lem a b in
    ((new_edge_key-injective a b c d, (λ same. ground (arith, same))), low, high)
