-- ===== src/Prelude/HashMap/Defs.antt =====
-- The operations of `HashMap` and `HashSet`.
use mathlib.Core.List.{List, [], ◌∷◌, map}
use mathlib.Core.Logic.{ite}
use mathlib.Core.Bool.{Bool, true, false}
use mathlib.Core.Option.{Option, none, some}
use preload_ng.Prelude.Tests.{if◌then◌else◌}

abbrev pub HashMap {ℓ} : Type ℓ → Type ℓ → Type ℓ
HashMap K V = List (K × V)

-- A set is the map to the one value of `()`, as it is in Rust.
abbrev pub HashSet {ℓ} : Type ℓ → Type ℓ
HashSet K = HashMap K (Unit)

module _ {ℓ} {K V : Type ℓ} where
  abbrev pub keys : HashMap K V → List K
  keys = map (λ e. e.0)

  -- `retain`, whose closure sees the key and the value.
  unfoldable pub retain : (K → V → Bool) → HashMap K V → HashMap K V
  retain p [] = []
  retain p ((k, v) ∷ m) = let rest = retain p m in if p k v then (k, v) ∷ rest else rest

module _ {ℓ} {K V : Type ℓ} (dec : Discrete K) where
  unfoldable pub get : HashMap K V → K → Option V
  get [] k = none
  get ((j, v) ∷ m) k = ite (dec j k) (some v) (get m k)

  unfoldable pub insert : HashMap K V → K → V → HashMap K V
  insert [] k v = (k, v) ∷ []
  insert ((j, w) ∷ m) k v = ite (dec j k) ((k, v) ∷ m) ((j, w) ∷ insert m k v)

  unfoldable pub remove : HashMap K V → K → HashMap K V
  remove [] k = []
  remove ((j, w) ∷ m) k = ite (dec j k) (remove m k) ((j, w) ∷ remove m k)

  abbrev pub contains_key : HashMap K V → K → Bool
  contains_key m k = elim (get m k) [ none ↦ false | some _ ↦ true ]

  -- `entry(k).or_insert(v)`: the map after it.
  abbrev pub or_insert : HashMap K V → K → V → HashMap K V
  or_insert m k v = elim (get m k) [ none ↦ insert m k v | some _ ↦ m ]

module _ {ℓ} {K : Type ℓ} (dec : Discrete K) where
  abbrev pub contains : HashSet K → K → Bool
  contains = contains_key dec

  abbrev pub add : HashSet K → K → HashSet K
  add s k = insert dec s k tt

  -- `collect` into a set.
  unfoldable pub collect : List K → HashSet K
  collect [] = []
  collect (k ∷ ks) = add (collect ks) k

  unfoldable pub member : List K → K → Bool
  member [] k = false
  member (j ∷ ks) k = ite (dec j k) true (member ks k)

module _ {ℓ} {K V W : Type ℓ} (dec : Discrete K) where
  -- A loop that inserts a value for each entry that an iteration visits.
  unfoldable pub insert_each : (K → V → W) → HashMap K W → List (K × V) → HashMap K W
  insert_each f m [] = m
  insert_each f m ((k, v) ∷ entries) = insert_each f (insert dec m k (f k v)) entries
