-- ===== src/Prelude/Lists.antt =====
-- Lists measured and indexed by native numbers, under the library's names, and `Vec::swap_remove`.
use Prim.Native.Nat.{ℕ, zero, suc, ◌+◌, ◌<◌, ◌≤◌}
use mathlib.Core.Path.{◌≡◌, refl}
use mathlib.Core.List.{List, [], ◌∷◌, ◌++◌, map}
use mathlib.Core.Option.{Option, none, some}
use mathlib.Core.Bool.{Bool, true, false}
use native.Mathlib.Omega.{arith}
use preload_ng.Prelude.Tests.{◌==◌, if◌then◌else◌}

module _ {ℓ} {A : Type ℓ} where
  abbrev pub length : List A → ℕ
  length [] = 0
  length (x ∷ xs) = suc (length xs)

  abbrev pub get_elem? : List A → ℕ → Option A
  get_elem? [] i = none
  get_elem? (x ∷ xs) zero = some x
  get_elem? (x ∷ xs) (suc i) = get_elem? xs i

  -- A write out of bounds changes nothing.
  abbrev pub set : List A → ℕ → A → List A
  set [] i v = []
  set (x ∷ xs) zero v = v ∷ xs
  set (x ∷ xs) (suc i) v = x ∷ set xs i v

  -- The predicate holds of each element.
  abbrev pub All {κ} : (A → Type κ) → List A → Type κ
  All P [] = Unit
  All P (x ∷ xs) = P x × All P xs

  -- `iter().any`.
  abbrev pub any : (A → Bool) → List A → Bool
  any p [] = false
  any p (x ∷ xs) = if p x then true else any p xs

  -- `filter` by a Boolean test.
  unfoldable pub keep : (A → Bool) → List A → List A
  keep p [] = []
  keep p (x ∷ xs) = let rest = keep p xs in if p x then x ∷ rest else rest

  pub length-append : (xs ys : List A) → length (xs ++ ys) ≡ length xs + length ys
  length-append [] ys = omega arith
  length-append (x ∷ xs) ys = omega (arith, length-append xs ys)

  pub All-append {κ} : (P : A → Type κ) (xs ys : List A) → All P xs → All P ys → All P (xs ++ ys)
  All-append P [] ys hx hy = hy
  All-append P (x ∷ xs) ys hx hy = (hx.0, All-append P xs ys hx.1 hy)

  pub any-append_left : (p : A → Bool) (xs ys : List A) → any p xs ≡ true → any p (xs ++ ys) ≡ true
  any-append_left p [] ys h = cc
  any-append_left p (x ∷ xs) ys h = ground (arith, any-append_left p xs ys)

  pub any-append_right : (p : A → Bool) (xs ys : List A) → any p ys ≡ true → any p (xs ++ ys) ≡ true
  any-append_right p [] ys h = h
  any-append_right p (x ∷ xs) ys h = ground (arith, any-append_right p xs ys h)

  pub All-weaken {κ κ'} :
      {P : A → Type κ} {Q : A → Type κ'}
      → ((a : A) → P a → Q a)
      → (xs : List A) → All P xs
      → All Q xs
  All-weaken f [] h = tt
  All-weaken f (x ∷ xs) (p, h) = (f x p, All-weaken f xs h)

  pub get_elem?-lt : (xs : List A) (i : ℕ) {a : A} → get_elem? xs i ≡ some a → i < length xs
  get_elem?-lt [] i h = absurd (cc)
  get_elem?-lt (x ∷ xs) zero h = omega arith
  get_elem?-lt (x ∷ xs) (suc i) h = omega (arith, get_elem?-lt xs i h)

  pub get_elem?-exists : (xs : List A) (i : ℕ) → i < length xs → (a : A) × (get_elem? xs i ≡ some a)
  get_elem?-exists [] i h = absurd (omega arith)
  get_elem?-exists (x ∷ xs) zero h = (x, refl)
  get_elem?-exists (x ∷ xs) (suc i) h = get_elem?-exists xs i (omega arith)

  pub get_elem?-ge : (xs : List A) (i : ℕ) → length xs ≤ i → get_elem? xs i ≡ none
  get_elem?-ge [] i h = refl
  get_elem?-ge (x ∷ xs) zero h = absurd (omega arith)
  get_elem?-ge (x ∷ xs) (suc i) h = get_elem?-ge xs i (omega arith)

  pub get_elem?-snoc :
      (xs : List A) (y : A) (i : ℕ)
      → get_elem? (xs ++ y ∷ []) i ≡ (if i == length xs then some y else get_elem? xs i)
  get_elem?-snoc [] y zero = refl
  get_elem?-snoc [] y (suc i) = ground arith
  get_elem?-snoc (x ∷ xs) y zero = ground arith
  get_elem?-snoc (x ∷ xs) y (suc i) = ground (arith, get_elem?-snoc xs y i)

  pub length-set : (xs : List A) (i : ℕ) (v : A) → length (set xs i v) ≡ length xs
  length-set [] i v = refl
  length-set (x ∷ xs) zero v = refl
  length-set (x ∷ xs) (suc i) v = omega (arith, length-set xs i v)

  pub get_elem?-set :
      (xs : List A) (i : ℕ) (v : A) (j : ℕ)
      → i < length xs
      → get_elem? (set xs i v) j ≡ (if i == j then some v else get_elem? xs j)
  get_elem?-set [] i v j h = absurd (omega arith)
  get_elem?-set (x ∷ xs) zero v zero h = refl
  get_elem?-set (x ∷ xs) zero v (suc j) h = ground arith
  get_elem?-set (x ∷ xs) (suc i) v zero h = ground arith
  get_elem?-set (x ∷ xs) (suc i) v (suc j) h = ground (arith, get_elem?-set xs i v j)

module _ {ℓ ℓ'} {A : Type ℓ} {B : Type ℓ'} where
  -- All of a mapped list.
  pub map-All {κ} :
      (P : B → Type κ) (f : A → B) (xs : List A) → All (λ a. P (f a)) xs → All P (map f xs)
  map-All P f [] h = tt
  map-All P f (x ∷ xs) (p, h) = (p, map-All P f xs h)
