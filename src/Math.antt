-- ===== src/Math.antt =====
-- crates/orchestrator/src/math.rs.
use preload_ng.Prelude.{◌*◌, ◌%◌, ◌^◌, if◌then◌else◌}
use preload_ng.Prelude.Int.{ℤ, pos, ◌+ℤ◌, low_bits}
use preload_ng.Floats.{Floats}

module _ (fl : Floats) where
  open fl use {F32, zero32, one, add, sub, mul, neg, lt, floor, of_decimal, to_i32, from_bits}

  -- The polynomial of degree five, in Horner's form.
  exp_poly : F32 → F32
  exp_poly r = add one (
      mul r (
        add one (
          mul r (
            add (of_decimal 5 1) (
              mul r (
                add (of_decimal 16666667 8)
                  (mul r (add (of_decimal 41666668 9) (mul r (of_decimal 8333334 9))))))))))

  -- `f32::from_bits(((ni + 127) as u32) << 23)`.
  power_of_two : ℤ → F32
  unfolding ◌+ℤ◌ low_bits
  power_of_two ni = from_bits (low_bits 32 (ni +ℤ pos 127) * 2 ^ 23 % 2 ^ 32)

  unfoldable pub fast_exp_neg : F32 → F32
  unfolding exp_poly power_of_two
  fast_exp_neg x =
      if lt x (neg (of_decimal 87 0))
      then zero32
      else let t = mul x (of_decimal 144269504 8) in
        let n = floor (add t (of_decimal 5 1)) in
        let r = sub (sub x (mul n (of_decimal 69314575 8))) (mul n (of_decimal 14286068 13)) in
        mul (exp_poly r) (power_of_two (to_i32 n))
