-- ===== src/Prelude/Options.antt =====
-- The `?` of Rust on options, which a do block chains, and what holds of the value of a chain.
use mathlib.Core.Option.{Option, none, some}
use mathlib.Core.Bool.{Bool, true, false}
use mathlib.Core.Path.{◌≡◌, refl}
use preload_ng.Prelude.Tests.{if◌then◌else◌}

infixl 5 ◌>>=◌
abbrev pub ◌>>=◌ : {A B : Type 0} → Option A → (A → Option B) → Option B
none >>= f = none
some a >>= f = f a

-- A value, if there is one, has the property.
abbrev pub IfSome : {A : Type 0} → (A → Type 0) → Option A → Type 0
IfSome P none = Unit
IfSome P (some a) = P a

pub bind-IfSome :
    {A B : Type 0} (Q : B → Type 0) (o : Option A) (f : A → Option B)
    → ((a : A) → o ≡ some a → IfSome Q (f a))
    → IfSome Q (o >>= f)
bind-IfSome Q none f h = tt
bind-IfSome Q (some a) f h = h a refl

-- A guard that was passed.
pub guard-passed : (b : Bool) (u : Unit {0}) → (if b then none else some tt) ≡ some u → b ≡ false
guard-passed true u h = cc
guard-passed false u h = refl
