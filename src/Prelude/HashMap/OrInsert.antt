-- ===== src/Prelude/HashMap/OrInsert.antt =====
-- `entry(k).or_insert(v)`: an entry that is there stays.
use mathlib.Core.Path.{◌≡◌, ap₂, subst}
use mathlib.Core.Logic.{inl, inr, if_pos, if_neg, ite}
use mathlib.Core.Bool.{true}
use mathlib.Core.Option.{some}
use native.Mathlib.Omega.{arith}
use mathlib.Core.List.{[], ◌∷◌}
use preload_ng.Prelude.Lists.{All}
use preload_ng.Prelude.Tests.{Option-cases}
use preload_ng.Prelude.HashMap.Defs.{HashMap, get, insert, contains_key, or_insert}
use preload_ng.Prelude.HashMap.Laws.{get-insert}

module _ {K V : Type 0} (dec : Discrete K) where
  pub insert-All :
      (P : K × V → Type 0) (m : HashMap K V) (k : K) (v : V)
      → P (k, v)
      → All P m
      → All P (insert dec m k v)
  unfolding insert
  insert-All P [] k v p h = (p, tt)
  insert-All P ((j, w) ∷ m) k v p (q, h) = elim (dec j k) [
    | yes e ↦ rw (if_pos (dec j k) e) (p, h)
    | no n ↦ rw (if_neg (dec j k) n) (q, insert-All P m k v p h)
  ]

  pub or_insert-All :
      (P : K × V → Type 0) (m : HashMap K V) (k : K) (v : V)
      → P (k, v)
      → All P m
      → All P (or_insert dec m k v)
  or_insert-All P m k v p h = elim (Option-cases (get dec m k)) [
    | inl absent ↦ rw (All, absent) (insert-All P m k v p h)
    | inr (w, there) ↦ rw (All, there) h
  ]

  pub or_insert-kept :
      (m : HashMap K V) (k : K) (v : V) (j : K) (w : V)
      → get dec m j ≡ some w
      → get dec (or_insert dec m k v) j ≡ some w
  or_insert-kept m k v j w h = ground (arith, Option-cases (get dec m k), get-insert dec m k v j)

  pub or_insert-contains :
      (m : HashMap K V) (k : K) (v : V) → contains_key dec (or_insert dec m k v) k ≡ true
  or_insert-contains m k v = ground (arith, Option-cases (get dec m k), get-insert dec m k v k)

  pub or_insert-contains_kept :
      (m : HashMap K V) (k : K) (v : V) (j : K)
      → contains_key dec m j ≡ true
      → contains_key dec (or_insert dec m k v) j ≡ true
  or_insert-contains_kept m k v j h =
      ground (arith, Option-cases (get dec m k), Option-cases (get dec m j), get-insert dec m k v j)

  pub get-All :
      (P : K × V → Type 0) (m : HashMap K V) (k : K) (v : V)
      → get dec m k ≡ some v
      → All P m
      → P (k, v)
  unfolding get
  get-All P [] k v found h = absurd (cc)
  get-All P ((j, w) ∷ m) k v found (p, h) = elim (dec j k) [
    | yes e ↦ subst P (ap₂ (λ a b. (a, b)) e (here e found)) p
    | no n ↦ get-All P m k v (rw (if_neg (dec j k) n) at found) h
  ]
    where
      here : {w' : V} → j ≡ k → ite (dec j k) (some w') (get dec m k) ≡ some v → w' ≡ v
      here e found = ground (arith, e)
