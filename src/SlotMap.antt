-- ===== src/SlotMap.antt =====
-- The slotmap crate's `SlotMap`, which the stores use and this repository does not hold: its
-- operations and, in `SlotMapLaws`, what its documentation says of them. A write through `get_mut`
-- is `set`.
use preload_ng.Prelude.{ℕ, ◌≡◌, ◌≢◌, ite, Option, none, some, List, ℕ_discrete}
use preload_ng.Prelude.HashMap as Assoc

pub record SlotMap (V : Type 0) : Type 1 where
  pub Slots : Type 0
  pub empty : Slots
  -- the new key, and the map after the insertion
  pub insert : Slots → V → ℕ × Slots
  pub get : Slots → ℕ → Option V
  pub set : Slots → ℕ → V → Slots
  -- the removed value, and the map after the removal
  pub remove : Slots → ℕ → Option V × Slots
  pub iter : Slots → List (ℕ × V)

pub record SlotMapLaws {V : Type 0} (s : SlotMap V) : Type 0 where
  pub get-empty : (k : ℕ) → s.get s.empty k ≡ none
  -- a new key is not in use
  pub get_fresh : (m : s.Slots) (v : V) → s.get m (s.insert m v).0 ≡ none
  pub get-insert :
      (m : s.Slots) (v : V) (k : ℕ)
      → s.get (s.insert m v).1 k ≡ ite (ℕ_discrete (s.insert m v).0 k) (some v) (s.get m k)
  -- `get_mut` gives a place to write to only at a key in use
  pub get-set :
      (m : s.Slots) (k : ℕ) (v : V) (j : ℕ)
      → s.get m k ≢ none
      → s.get (s.set m k v) j ≡ ite (ℕ_discrete k j) (some v) (s.get m j)
  pub removed : (m : s.Slots) (k : ℕ) → (s.remove m k).0 ≡ s.get m k
  pub get-remove :
      (m : s.Slots) (k j : ℕ) → s.get (s.remove m k).1 j ≡ ite (ℕ_discrete k j) none (s.get m j)
  -- the iteration visits every entry once
  pub get-iter : (m : s.Slots) (k : ℕ) → Assoc.get ℕ_discrete (s.iter m) k ≡ s.get m k
  pub iter-Distinct : (m : s.Slots) → Assoc.Distinct ℕ_discrete (s.iter m)
