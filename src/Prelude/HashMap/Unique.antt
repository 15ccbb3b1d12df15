-- ===== src/Prelude/HashMap/Unique.antt =====
-- A hash map holds a key once: the representation invariant, kept by every operation, and what
-- `retain` leaves.
use mathlib.Core.Path.{◌≡◌, refl, ap}
use mathlib.Core.List.{List, [], ◌∷◌}
use mathlib.Core.Bool.{Bool}
use mathlib.Core.Option.{Option, none, some}
use native.Mathlib.Omega.{arith}
use preload_ng.Prelude.Tests.{if◌then◌else◌}
use preload_ng.Prelude.HashMap.Defs.{HashMap, retain, get, insert, remove, collect, insert_each}
use preload_ng.Prelude.HashMap.Laws.{get-insert, get-remove}

-- The value at a key after `retain`.
abbrev pub retained {ℓ} : {V : Type ℓ} → (V → Bool) → Option V → Option V
retained p none = none
retained p (some v) = if p v then some v else none

module _ {ℓ} {K V : Type ℓ} (dec : Discrete K) where
  abbrev pub Distinct : HashMap K V → Type ℓ
  Distinct [] = Unit
  Distinct ((k, v) ∷ m) = (get dec m k ≡ none) × Distinct m

  pub insert-Distinct : (m : HashMap K V) (k : K) (v : V) → Distinct m → Distinct (insert dec m k v)
  unfolding insert get
  insert-Distinct [] k v h = (refl, tt)
  insert-Distinct ((j, w) ∷ m) k v h =
      ground (arith, insert-Distinct m k v h.1, get-insert dec m k v j)

module _ {K V : Type 0} (dec : Discrete K) where
  pub get-retain :
      (p : K → V → Bool) (m : HashMap K V) (k : K)
      → Distinct dec m
      → get dec (retain p m) k ≡ retained (p k) (get dec m k)
  unfolding get retain
  get-retain p [] k h = refl
  get-retain p ((j, w) ∷ m) k h = ground (arith, get-retain p m k h.1)

  pub retain-Distinct :
      (p : K → V → Bool) (m : HashMap K V) → Distinct dec m → Distinct dec (retain p m)
  unfolding retain
  retain-Distinct p [] h = tt
  retain-Distinct p ((j, w) ∷ m) h = ground (arith, retain-Distinct p m h.1, get-retain p m j h.1)

  pub remove-Distinct : (m : HashMap K V) (k : K) → Distinct dec m → Distinct dec (remove dec m k)
  unfolding remove get
  remove-Distinct [] k h = tt
  remove-Distinct ((j, w) ∷ m) k h = ground (arith, remove-Distinct m k h.1, get-remove dec m k j)

module _ {K : Type 0} (dec : Discrete K) where
  pub collect-Distinct : (ks : List K) → Distinct dec (collect dec ks)
  unfolding collect
  collect-Distinct [] = tt
  collect-Distinct (k ∷ ks) = insert-Distinct dec (collect dec ks) k tt (collect-Distinct ks)

module _ {ℓ} {K V W : Type ℓ} (dec : Discrete K) (f : K → V → W) where
  -- The value of a key that the iteration visits once is the one that is inserted for it.
  pub get-insert_each :
      (m : HashMap K W) (entries : List (K × V)) (k : K)
      → Distinct dec entries
      → get dec (insert_each dec f m entries) k
        ≡ elim (get dec entries k) [ none ↦ get dec m k | some v ↦ some (f k v) ]
  unfolding insert_each get
  get-insert_each m [] k h = refl
  get-insert_each m ((j, v) ∷ entries) k (fresh, h) = ground (
    arith,
    get-insert_each (insert dec m j (f j v)) entries k h,
    get-insert dec m j (f j v) k,
    ap (f k),
  )

  pub insert_each-Distinct :
      (m : HashMap K W) (entries : List (K × V))
      → Distinct dec m
      → Distinct dec (insert_each dec f m entries)
  unfolding insert_each
  insert_each-Distinct m [] h = h
  insert_each-Distinct m ((j, v) ∷ entries) h =
      insert_each-Distinct (insert dec m j (f j v)) entries (insert-Distinct dec m j (f j v) h)
