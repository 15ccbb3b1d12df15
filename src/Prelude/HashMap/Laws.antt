-- ===== src/Prelude/HashMap/Laws.antt =====
-- What `get` returns after each operation.
use mathlib.Core.Path.{◌≡◌, refl}
use mathlib.Core.List.{List, [], ◌∷◌}
use mathlib.Core.Logic.{ite}
use mathlib.Core.Option.{none, some}
use native.Mathlib.Omega.{arith}
use preload_ng.Prelude.HashMap.Defs.{
  HashMap, keys, get, insert, remove, contains, contains_key, collect, member,
}

module _ {ℓ} {K V : Type ℓ} (dec : Discrete K) where
  pub get-insert :
      (m : HashMap K V) (k : K) (v : V) (j : K)
      → get dec (insert dec m k v) j ≡ ite (dec k j) (some v) (get dec m j)
  unfolding get insert
  get-insert [] k v j = refl
  get-insert ((i, w) ∷ m) k v j = ground (arith, get-insert m k v j)

  pub get-remove :
      (m : HashMap K V) (k j : K) → get dec (remove dec m k) j ≡ ite (dec k j) none (get dec m j)
  unfolding get remove
  get-remove [] k j = ground arith
  get-remove ((i, w) ∷ m) k j = ground (arith, get-remove m k j)

module _ {K V : Type 0} (dec : Discrete K) where
  -- `keys` lists exactly the keys that `get` finds.
  pub member-keys : (m : HashMap K V) (k : K) → member dec (keys m) k ≡ contains_key dec m k
  unfolding get member
  member-keys [] k = refl
  member-keys ((i, w) ∷ m) k = ground (arith, member-keys m k)

module _ {ℓ} {K : Type ℓ} (dec : Discrete K) where
  pub contains-collect : (ks : List K) (k : K) → contains dec (collect dec ks) k ≡ member dec ks k
  unfolding collect member get
  contains-collect [] k = refl
  contains-collect (j ∷ ks) k =
      ground (arith, get-insert dec (collect dec ks) j tt k, contains-collect ks k)
