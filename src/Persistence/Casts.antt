-- ===== src/Persistence/Casts.antt =====
-- The casts of crates/orchestrator/src/persistence/repo.rs: a number of 64 bits that goes through a
-- column of signed integers comes back, and so does each record of such numbers.
use preload_ng.Prelude.{ℕ, ◌^◌, ◌<◌, ◌≡◌, refl, ap, Option, none, some, arith}
use preload_ng.Prelude.Int.{pos, low_bits, wrap_i64}
use preload_ng.Persistence.Rows.{as_i64, as_u64, map_option}

pub as_u64-as_i64 : (n : ℕ) → n < 2 ^ 64 → as_u64 (as_i64 n) ≡ n
unfolding low_bits wrap_i64
as_u64-as_i64 n h = ground arith

pub low_bits-pos : (n : ℕ) → n < 2 ^ 32 → low_bits 32 (pos n) ≡ n
unfolding low_bits
low_bits-pos n h = omega arith

-- An optional number is absent or below the bound.
abbrev pub Below : ℕ → Option ℕ → Type 0
Below bound none = Unit
Below bound (some n) = n < bound

pub map_option-casts :
    (o : Option ℕ) → Below (2 ^ 64) o → map_option as_u64 (map_option as_i64 o) ≡ o
map_option-casts none h = refl
map_option-casts (some n) h = ap some (as_u64-as_i64 n h)
