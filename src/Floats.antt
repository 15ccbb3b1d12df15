-- ===== src/Floats.antt =====
-- The floating-point numbers: Rust's `f32`, and `f16` of the half crate, as types with the
-- operations that the program uses.
use preload_ng.Prelude.{ℕ, Bool}
use preload_ng.Prelude.Int.{ℤ}

pub data Ordering : Type 0 where
  less equal greater : Ordering

pub record Floats : Type 1 where
  pub F32 : Type 0
  pub F16 : Type 0
  pub zero32 : F32
  pub one : F32
  pub add : F32 → F32 → F32
  pub sub : F32 → F32 → F32
  pub mul : F32 → F32 → F32
  pub div : F32 → F32 → F32
  pub neg : F32 → F32
  pub abs : F32 → F32
  pub sqrt : F32 → F32
  pub max : F32 → F32 → F32
  -- `x.clamp(0.0, 1.0)`
  pub clamp01 : F32 → F32
  -- `x <= 0.0` and `x == 0.0`
  pub not_positive : F32 → Bool
  pub is_zero : F32 → Bool
  -- `n as f32` for a u64
  pub of_u64 : ℕ → F32
  pub min_positive : F32
  -- the literal `m * 10 ^ -e`
  pub of_decimal : (m e : ℕ) → F32
  pub lt : F32 → F32 → Bool
  pub floor : F32 → F32
  -- `x as i32` and `f32::from_bits`
  pub to_i32 : F32 → ℤ
  pub from_bits : ℕ → F32
  pub zero16 : F16
  pub from_f32 : F32 → F16
  pub to_f32 : F16 → F32
  -- `x > f16::ZERO` and `f16::total_cmp`
  pub is_positive : F16 → Bool
  pub total_cmp : F16 → F16 → Ordering
