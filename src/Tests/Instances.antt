-- ===== src/Tests/Instances.antt =====
-- A slot map, a sort and number types that meet the laws which the theorems ask for.
use preload_ng.Prelude.{
  ℕ, suc, ◌+◌, ◌-◌, ◌*◌, ◌/◌, ◌^◌, ◌≤◌, min, max, ◌≡◌, refl, ◌≢◌, none, List, [], ◌∷◌, arith,
  ℕ_discrete, ltb, ◌==◌, if◌then◌else◌, All,
}
use mathlib.Core.List.{Permᴰ}
use preload_ng.Prelude.HashMap as Map
use preload_ng.Prelude.HashMap.{HashMap, Distinct, keys}
use preload_ng.Prelude.Int.{pos}
use preload_ng.Domain.{Exe, MapSegment}
use preload_ng.Floats.{Floats, Ordering, less, equal, greater}
use preload_ng.SlotMap.{SlotMap, SlotMapLaws}
use preload_ng.Prefetch.Sort.{Std, SortLaws, IsSorted, IsTotal}
use preload_ng.Stores.Model.{Env, EnvLaws}

module _ {V : Type 0} where
  -- A number above every key.
  next : HashMap ℕ V → ℕ
  next [] = 0
  next ((k, v) ∷ m) = max (suc k) (next m)

  get_above : (m : HashMap ℕ V) (k : ℕ) → next m ≤ k → Map.get ℕ_discrete m k ≡ none
  unfolding next Map.get
  get_above [] k h = refl
  get_above ((j, v) ∷ m) k h = ground (arith, get_above m k)

  -- Each key once.
  entries : HashMap ℕ V → HashMap ℕ V
  entries [] = []
  entries ((k, v) ∷ m) = (k, v) ∷ Map.remove ℕ_discrete (entries m) k

  get-entries :
      (m : HashMap ℕ V) (k : ℕ) → Map.get ℕ_discrete (entries m) k ≡ Map.get ℕ_discrete m k
  unfolding entries Map.get
  get-entries [] k = refl
  get-entries ((j, v) ∷ m) k =
      ground (arith, get-entries m k, Map.get-remove ℕ_discrete (entries m) j k)

  entries-Distinct : (m : HashMap ℕ V) → Distinct ℕ_discrete (entries m)
  unfolding entries Map.get
  entries-Distinct [] = tt
  entries-Distinct ((j, v) ∷ m) = (
    ground (arith, Map.get-remove ℕ_discrete (entries m) j j),
    Map.remove-Distinct ℕ_discrete (entries m) j (entries-Distinct m),
  )

unfoldable pub slots : (V : Type 0) → SlotMap V
unfolding next entries
slots V = record {
  Slots = HashMap ℕ V;
  empty = [];
  insert = λ m v. (next m, Map.insert ℕ_discrete m (next m) v);
  get = Map.get ℕ_discrete;
  set = Map.insert ℕ_discrete;
  remove = λ m k. (Map.get ℕ_discrete m k, Map.remove ℕ_discrete m k);
  iter = entries;
}

pub slots_laws : (V : Type 0) → SlotMapLaws (slots V)
unfolding slots Map.get
slots_laws V = record {
  get-empty = λ k. refl;
  get_fresh = λ m v. get_above m (next m) (omega arith);
  get-insert = λ m v k. Map.get-insert ℕ_discrete m (next m) v k;
  get-set = λ m k v j h. Map.get-insert ℕ_discrete m k v j;
  removed = λ m k. refl;
  get-remove = λ m k j. Map.get-remove ℕ_discrete m k j;
  get-iter = get-entries;
  iter-Distinct = entries-Distinct;
}

-- Numbers in millionths stand for the floating-point numbers.
abbrev pub millionths : Floats
millionths = record {
  F32 = ℕ;
  F16 = ℕ;
  zero32 = 0;
  one = 1_000_000;
  add = λ a b. a + b;
  sub = λ a b. a - b;
  mul = λ a b. a * b / 1_000_000;
  div = λ a b. a * 1_000_000 / b;
  neg = λ a. a;
  abs = λ a. a;
  sqrt = λ a. a;
  max = λ a b. max a b;
  clamp01 = λ a. min a 1_000_000;
  not_positive = λ a. a == 0;
  is_zero = λ a. a == 0;
  of_u64 = λ n. n * 1_000_000;
  min_positive = 1;
  of_decimal = λ m e. m * 1_000_000 / 10 ^ e;
  lt = ltb;
  floor = λ a. a;
  to_i32 = λ a. pos a;
  from_bits = λ a. a;
  zero16 = 0;
  from_f32 = λ a. a;
  to_f32 = λ a. a;
  is_positive = λ a. ltb 0 a;
  total_cmp = λ a b. if ltb a b then less else if ltb b a then greater else equal;
}

module _ {A : Type 0} (cmp : A → A → Ordering) where
  insert_sorted : A → List A → List A
  insert_sorted x [] = x ∷ []
  insert_sorted x (y ∷ ys) = elim (cmp y x) [
    | less ↦ y ∷ insert_sorted x ys
    | equal ↦ x ∷ y ∷ ys
    | greater ↦ x ∷ y ∷ ys
  ]

  insertion_sort : List A → List A
  insertion_sort [] = []
  insertion_sort (x ∷ xs) = insert_sorted x (insertion_sort xs)

  Permᴰ-rfl : (xs : List A) → Permᴰ xs xs
  Permᴰ-rfl [] = Permᴰ.nil
  Permᴰ-rfl (x ∷ xs) = Permᴰ.cons refl (Permᴰ-rfl xs)

  insert_sorted-perm : (x : A) (xs : List A) → Permᴰ (insert_sorted x xs) (x ∷ xs)
  unfolding insert_sorted
  insert_sorted-perm x [] = Permᴰ-rfl (x ∷ [])
  insert_sorted-perm x (y ∷ ys) = go (cmp y x) (insert_sorted-perm x ys)
    where
      go :
          (o : Ordering)
          → Permᴰ (insert_sorted x ys) (x ∷ ys)
          → Permᴰ
              (elim o as (λ _. List A) [
                | less ↦ y ∷ insert_sorted x ys
                | equal ↦ x ∷ y ∷ ys
                | greater ↦ x ∷ y ∷ ys
              ])
              (x ∷ y ∷ ys)
      go less ih = Permᴰ.trans (Permᴰ.cons refl ih) (Permᴰ.swap refl refl)
      go equal ih = Permᴰ-rfl (x ∷ y ∷ ys)
      go greater ih = Permᴰ-rfl (x ∷ y ∷ ys)

  insertion_sort-perm : (xs : List A) → Permᴰ (insertion_sort xs) xs
  unfolding insertion_sort
  insertion_sort-perm [] = Permᴰ.nil
  insertion_sort-perm (x ∷ xs) =
      Permᴰ.trans (insert_sorted-perm x (insertion_sort xs))
        (Permᴰ.cons refl (insertion_sort-perm xs))

  All-insert_sorted :
      (P : A → Type 0) (x : A) (xs : List A) → P x → All P xs → All P (insert_sorted x xs)
  unfolding insert_sorted
  All-insert_sorted P x [] px pxs = (px, tt)
  All-insert_sorted P x (y ∷ ys) px pxs = go (cmp y x) (All-insert_sorted P x ys px pxs.1)
    where
      go :
          (o : Ordering)
          → All P (insert_sorted x ys)
          → All P (elim o as (λ _. List A) [
            | less ↦ y ∷ insert_sorted x ys
            | equal ↦ x ∷ y ∷ ys
            | greater ↦ x ∷ y ∷ ys
          ])
      go less ih = (pxs.0, ih)
      go equal ih = (px, pxs)
      go greater ih = (px, pxs)

  module _ (total : IsTotal cmp) where
    above :
        (x y : A) (ys : List A)
        → cmp y x ≢ less
        → All (λ z. cmp z y ≢ less) ys
        → All (λ z. cmp z x ≢ less) ys
    above x y [] h a = tt
    above x y (z ∷ zs) h a = (
      λ e.
          total.transitive x y z (λ g. h (total.converse x y g)) (λ g. a.0 (total.converse y z g))
            (total.antisymmetric z x e),
      above x y zs h a.1,
    )

    insert_sorted-IsSorted :
        (x : A) (xs : List A) → IsSorted cmp xs → IsSorted cmp (insert_sorted x xs)
    unfolding insert_sorted
    insert_sorted-IsSorted x [] h = (tt, tt)
    insert_sorted-IsSorted x (y ∷ ys) h = go (cmp y x) refl (insert_sorted-IsSorted x ys h.1)
      where
        go :
            (o : Ordering)
            → cmp y x ≡ o
            → IsSorted cmp (insert_sorted x ys)
            → IsSorted cmp (elim o as (λ _. List A) [
              | less ↦ y ∷ insert_sorted x ys
              | equal ↦ x ∷ y ∷ ys
              | greater ↦ x ∷ y ∷ ys
            ])
        go less e ih = (
          All-insert_sorted (λ z. cmp z y ≢ less) x ys
              (λ f. absurd (ground (arith, total.antisymmetric y x))) h.0,
          ih,
        )
        go equal e ih =
            let ne : cmp y x ≢ less = λ f. absurd (ground arith) in ((ne, above x y ys ne h.0), h)
        go greater e ih =
            let ne : cmp y x ≢ less = λ f. absurd (ground arith) in ((ne, above x y ys ne h.0), h)

    insertion_sort-IsSorted : (xs : List A) → IsSorted cmp (insertion_sort xs)
    unfolding insertion_sort
    insertion_sort-IsSorted [] = tt
    insertion_sort-IsSorted (x ∷ xs) =
        insert_sorted-IsSorted x (insertion_sort xs) (insertion_sort-IsSorted xs)

unfoldable pub std : Std
unfolding insertion_sort insert_sorted
std = record { sort_unstable_by = λ A cmp xs. insertion_sort cmp xs; path_cmp = λ a b. equal }

pub std_laws : SortLaws std
unfolding std
std_laws = record {
  sort-perm = λ A cmp xs. insertion_sort-perm cmp xs;
  sort-IsSorted = λ A cmp xs total. insertion_sort-IsSorted cmp total xs;
}

abbrev pub env : Env
env = record { floats = millionths; exe_slots = slots Exe; map_slots = slots MapSegment }

pub env_laws : EnvLaws env
env_laws = record { exe_laws = slots_laws Exe; map_laws = slots_laws MapSegment }
