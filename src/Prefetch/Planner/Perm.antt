-- ===== src/Prefetch/Planner/Perm.antt =====
-- Permutations of lists that are mapped over.
use preload_ng.Prelude.{◌≡◌, refl, sym, ap, List, [], ◌∷◌, map}
use mathlib.Core.List.{Permᴰ}

pub map-Permᴰ :
    {A B : Type 0} (f : A → B) {xs ys : List A} → Permᴰ xs ys → Permᴰ (map f xs) (map f ys)
map-Permᴰ f Permᴰ.nil = Permᴰ.nil
map-Permᴰ f (Permᴰ.cons e p) = Permᴰ.cons (ap f e) (map-Permᴰ f p)
map-Permᴰ f (Permᴰ.swap e e') = Permᴰ.swap (ap f e) (ap f e')
map-Permᴰ f (Permᴰ.trans p q) = Permᴰ.trans (map-Permᴰ f p) (map-Permᴰ f q)

pub Permᴰ-refl : {A : Type 0} (xs : List A) → Permᴰ xs xs
Permᴰ-refl [] = Permᴰ.nil
Permᴰ-refl (x ∷ xs) = Permᴰ.cons refl (Permᴰ-refl xs)

pub map-map :
    {A B C : Type 0} (f : B → C) (g : A → B) (xs : List A)
    → map f (map g xs) ≡ map (λ x. f (g x)) xs
map-map f g [] = refl
map-map f g (x ∷ xs) = ap (◌∷◌ (f (g x))) (map-map f g xs)

pub map-id : {A : Type 0} (xs : List A) → map (λ x. x) xs ≡ xs
map-id [] = refl
map-id (x ∷ xs) = ap (◌∷◌ x) (map-id xs)

pub Permᴰ-symm : {A : Type 0} {xs ys : List A} → Permᴰ xs ys → Permᴰ ys xs
Permᴰ-symm Permᴰ.nil = Permᴰ.nil
Permᴰ-symm (Permᴰ.cons e p) = Permᴰ.cons (sym e) (Permᴰ-symm p)
Permᴰ-symm (Permᴰ.swap e e') = Permᴰ.swap (sym e') (sym e)
Permᴰ-symm (Permᴰ.trans p q) = Permᴰ.trans (Permᴰ-symm q) (Permᴰ-symm p)
