-- ===== src/Error.antt =====
-- crates/orchestrator/src/error.rs, and the outcome of code that can fail or panic.
use preload_ng.Prelude.{ℕ, ◌≡◌, refl, Bool, true, false, Option, none, some, List, if◌then◌else◌}
use preload_ng.Domain.{FilePath}

-- Of an error of another crate (its configuration, procfs, io or sqlx) only the kind is kept.
pub data Error : Type 0 where
  config procfs io sqlx : Error
  rkyv_serialize rkyv_deserialize : List ℕ → Error
  invalid_path exe_missing map_missing : FilePath → Error

pub data Outcome (A : Type 0) : Type 0 where
  ok : A → Outcome A
  err : Error → Outcome A
  panic : Outcome A

abbrev pub ok_or : {A : Type 0} → Option A → Error → Outcome A
ok_or none e = err e
ok_or (some a) e = ok a

infixl 5 ◌>>=◌
abbrev pub ◌>>=◌ : {A B : Type 0} → Outcome A → (A → Outcome B) → Outcome B
ok a >>= f = f a
err e >>= f = err e
panic >>= f = panic

-- The outcome is no panic, and a value has the property.
abbrev pub Holds : {A : Type 0} → (A → Type 0) → Outcome A → Type 0
Holds P (ok a) = P a
Holds P (err e) = Unit
Holds P panic = ⊥

pub bind-Holds :
    {A B : Type 0} (P : A → Type 0) (Q : B → Type 0) (o : Outcome A) (f : A → Outcome B)
    → Holds P o
    → ((a : A) → P a → Holds Q (f a))
    → Holds Q (o >>= f)
bind-Holds P Q (ok a) f h g = g a h
bind-Holds P Q (err e) f h g = tt
bind-Holds P Q panic f h g = h

pub Holds-weaken :
    {A : Type 0} (P Q : A → Type 0) (o : Outcome A) → ((a : A) → P a → Q a) → Holds P o → Holds Q o
Holds-weaken P Q (ok a) f h = f a h
Holds-weaken P Q (err e) f h = tt
Holds-weaken P Q panic f h = h

-- A chain that gives a value had one in its first step.
pub bind-ok :
    {A B : Type 0} (o : Outcome A) (f : A → Outcome B) (b : B)
    → (o >>= f) ≡ ok b
    → (a : A) × (o ≡ ok a) × (f a ≡ ok b)
bind-ok (ok a) f b h = (a, refl, h)
bind-ok (err e) f b h = cc
bind-ok panic f b h = cc

-- A value, if there is one, has the property.
abbrev pub IfOk : {A : Type 0} → (A → Type 0) → Outcome A → Type 0
IfOk P (ok a) = P a
IfOk P (err e) = Unit
IfOk P panic = Unit

pub bind-IfOk :
    {A B : Type 0} (P : A → Type 0) (Q : B → Type 0) (o : Outcome A) (f : A → Outcome B)
    → IfOk P o
    → ((a : A) → P a → IfOk Q (f a))
    → IfOk Q (o >>= f)
bind-IfOk P Q (ok a) f h g = g a h
bind-IfOk P Q (err e) f h g = tt
bind-IfOk P Q panic f h g = tt

-- The value is the outcome's.
pub IfOk-itself : {A : Type 0} (o : Outcome A) → IfOk (λ a. o ≡ ok a) o
IfOk-itself (ok a) = refl
IfOk-itself (err e) = tt
IfOk-itself panic = tt

-- An early return of an error.
pub if-IfOk :
    {A : Type 0} (P : A → Type 0) (b : Bool) (e : Error) (o : Outcome A)
    → IfOk P o
    → IfOk P (if b then err e else o)
if-IfOk P true e o h = tt
if-IfOk P false e o h = h

pub IfOk-map :
    {A : Type 0} {P Q : A → Type 0} (f : (a : A) → P a → Q a) (o : Outcome A) → IfOk P o → IfOk Q o
IfOk-map f (ok a) h = f a h
IfOk-map f (err e) h = tt
IfOk-map f panic h = tt
