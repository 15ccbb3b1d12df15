-- ===== src/Prelude/Members.antt =====
-- Membership as a test, lists without repetition, sums, and what a permutation keeps.
use Prim.Native.Nat.{ℕ, ◌+◌}
use mathlib.Core.Path.{◌≡◌, refl, ◌∙◌}
use mathlib.Core.Bool.{false, ◌||◌}
use mathlib.Core.List.{List, [], ◌∷◌, ◌++◌, Permᴰ}
use native.Mathlib.Omega.{arith}
use preload_ng.Prelude.HashMap.{member}

abbrev pub sum : {A : Type 0} → (A → ℕ) → List A → ℕ
sum f [] = 0
sum f (x ∷ xs) = f x + sum f xs

pub sum-append : {A : Type 0} (f : A → ℕ) (xs ys : List A) → sum f (xs ++ ys) ≡ sum f xs + sum f ys
sum-append f [] ys = omega arith
sum-append f (x ∷ xs) ys = omega (arith, sum-append f xs ys)

pub sum-Permᴰ : {A : Type 0} (f : A → ℕ) {xs ys : List A} → Permᴰ xs ys → sum f xs ≡ sum f ys
sum-Permᴰ f Permᴰ.nil = refl
sum-Permᴰ f (Permᴰ.cons e p) = ground (arith, sum-Permᴰ f p)
sum-Permᴰ f (Permᴰ.swap e e') = ground arith
sum-Permᴰ f (Permᴰ.trans p q) = sum-Permᴰ f p ∙ sum-Permᴰ f q

module _ {A : Type 0} (dec : Discrete A) where
  pub member-append :
      (xs ys : List A) (a : A) → member dec (xs ++ ys) a ≡ member dec xs a || member dec ys a
  unfolding member
  member-append [] ys a = ground arith
  member-append (x ∷ xs) ys a = ground (arith, member-append xs ys a)

  pub member-Permᴰ : (a : A) {xs ys : List A} → Permᴰ xs ys → member dec xs a ≡ member dec ys a
  unfolding member
  member-Permᴰ a Permᴰ.nil = refl
  member-Permᴰ a (Permᴰ.cons e p) = ground (arith, member-Permᴰ a p)
  member-Permᴰ a (Permᴰ.swap e e') = ground arith
  member-Permᴰ a (Permᴰ.trans p q) = member-Permᴰ a p ∙ member-Permᴰ a q

  -- No element stands in the list twice.
  abbrev pub NoRepeat : List A → Type 0
  NoRepeat [] = Unit
  NoRepeat (x ∷ xs) = (member dec xs x ≡ false) × NoRepeat xs

  pub NoRepeat-Permᴰ : {xs ys : List A} → Permᴰ xs ys → NoRepeat xs → NoRepeat ys
  unfolding member
  NoRepeat-Permᴰ Permᴰ.nil h = tt
  NoRepeat-Permᴰ (Permᴰ.cons {a = a} e p) h = ground (arith, NoRepeat-Permᴰ p h.1, member-Permᴰ a p)
  NoRepeat-Permᴰ (Permᴰ.swap e e') h = ground arith
  NoRepeat-Permᴰ (Permᴰ.trans p q) h = NoRepeat-Permᴰ q (NoRepeat-Permᴰ p h)

  pub NoRepeat-snoc :
      (xs : List A) (a : A) → NoRepeat xs → member dec xs a ≡ false → NoRepeat (xs ++ a ∷ [])
  unfolding member
  NoRepeat-snoc [] a h k = (refl, tt)
  NoRepeat-snoc (x ∷ xs) a h k = ground (arith, NoRepeat-snoc xs a h.1, member-append xs (a ∷ []) x)
