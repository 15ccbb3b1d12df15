-- ===== src/Stores/MarkovGraph/FourStates.antt =====
-- Rust's `[A; 4]`, indexed by a Markov state.
use preload_ng.Prelude.{ℕ, ◌≡◌, ite, arith}
use preload_ng.Domain.{MarkovState, MarkovState-discrete, neither, a_only, b_only, both}

pub record Array4 (A : Type 0) : Type 0 where
  pub at0 : A
  pub at1 : A
  pub at2 : A
  pub at3 : A

module _ {A : Type 0} where
  -- `[a; 4]`.
  abbrev pub fill : A → Array4 A
  fill a = record { at0 = a; at1 = a; at2 = a; at3 = a }

  -- `xs[s.index()]`.
  unfoldable pub at : Array4 A → MarkovState → A
  at xs neither = xs.at0
  at xs a_only = xs.at1
  at xs b_only = xs.at2
  at xs both = xs.at3

  -- `xs[s.index()] = a`.
  unfoldable pub write : Array4 A → MarkovState → A → Array4 A
  write xs neither a = record xs { at0 = a }
  write xs a_only a = record xs { at1 = a }
  write xs b_only a = record xs { at2 = a }
  write xs both a = record xs { at3 = a }

module _ {A B : Type 0} where
  -- `for i in 0..4`, writing the i-th entry from the i-th entry.
  abbrev pub for4 : (ℕ → A → B) → Array4 A → Array4 B
  for4 f xs = record { at0 = f 0 xs.at0; at1 = f 1 xs.at1; at2 = f 2 xs.at2; at3 = f 3 xs.at3 }

pub at-write :
    {A : Type 0} (xs : Array4 A) (s : MarkovState) (a : A) (t : MarkovState)
    → at (write xs s a) t ≡ ite (MarkovState-discrete s t) a (at xs t)
unfolding at write
at-write xs neither a neither = ground arith
at-write xs _ a _ = ground arith
