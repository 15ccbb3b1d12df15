-- ===== src/Prefetch/Sort.antt =====
-- `sort_unstable_by` of Rust's slices, which may return the equal elements in any order, and the
-- order of paths, by components. What the documentation of the sort says is `SortLaws`.
use preload_ng.Prelude.{◌≡◌, ◌≢◌, List, [], ◌∷◌, All}
use mathlib.Core.List.{Permᴰ}
use preload_ng.Domain.{FilePath}
use preload_ng.Floats.{Ordering, less, greater}

pub record Std : Type 1 where
  pub sort_unstable_by : (A : Type 0) → (A → A → Ordering) → List A → List A
  pub path_cmp : FilePath → FilePath → Ordering

-- No later element is less than an earlier one.
abbrev pub IsSorted : {A : Type 0} → (A → A → Ordering) → List A → Type 0
IsSorted cmp [] = Unit
IsSorted cmp (x ∷ xs) = All (λ y. cmp y x ≢ less) xs × IsSorted cmp xs

-- The comparison is a total order, as the sort asks for.
pub record IsTotal {A : Type 0} (cmp : A → A → Ordering) : Type 0 where
  pub antisymmetric : (x y : A) → cmp x y ≡ less → cmp y x ≡ greater
  pub converse : (x y : A) → cmp x y ≡ greater → cmp y x ≡ less
  pub transitive : (x y z : A) → cmp x y ≢ greater → cmp y z ≢ greater → cmp x z ≢ greater

pub record SortLaws (std : Std) : Type 1 where
  pub sort-perm :
      (A : Type 0) (cmp : A → A → Ordering) (xs : List A) → Permᴰ (std.sort_unstable_by A cmp xs) xs
  pub sort-IsSorted :
      (A : Type 0) (cmp : A → A → Ordering) (xs : List A)
      → IsTotal cmp
      → IsSorted cmp (std.sort_unstable_by A cmp xs)
