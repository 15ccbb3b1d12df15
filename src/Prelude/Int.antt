-- ===== src/Prelude/Int.antt =====
-- Signed integers over the native numbers, and the wrap-around of a cast to 64 or 32 bits.
use Prim.Native.Nat.{ℕ, suc, ◌+◌, ◌-◌, ◌*◌, ◌/◌, ◌%◌, ◌^◌}
use preload_ng.Prelude.Tests.{ltb, leb, if◌then◌else◌}

-- `negsuc n` is -(n + 1).
pub data ℤ : Type 0 where
  pos : ℕ → ℤ
  negsuc : ℕ → ℤ

abbrev pub pos_part : ℤ → ℕ
pos_part (pos n) = n
pos_part (negsuc n) = 0

abbrev pub neg_part : ℤ → ℕ
neg_part (pos n) = 0
neg_part (negsuc n) = suc n

-- a - b, as an integer.
abbrev pub sub_ℕ : ℕ → ℕ → ℤ
sub_ℕ a b = if leb b a then pos (a - b) else negsuc (b - a - 1)

infixl 65 ◌+ℤ◌
infixl 70 ◌*ℤ◌
unfoldable pub ◌+ℤ◌ : ℤ → ℤ → ℤ
a +ℤ b = sub_ℕ (pos_part a + pos_part b) (neg_part a + neg_part b)

unfoldable pub ◌*ℤ◌ : ℤ → ℤ → ℤ
a *ℤ b =
    sub_ℕ (pos_part a * pos_part b + neg_part a * neg_part b)
      (pos_part a * neg_part b + neg_part a * pos_part b)

-- Rust's `/` rounds towards zero. The divisor is a positive number.
unfoldable pub quot : ℤ → ℕ → ℤ
quot a d = sub_ℕ (pos_part a / d) (neg_part a / d)

-- The low `w` bits, as an unsigned number: a cast to `u32` or `u64`.
unfoldable pub low_bits : ℕ → ℤ → ℕ
low_bits w (pos n) = n % 2 ^ w
low_bits w (negsuc n) = 2 ^ w - 1 - n % 2 ^ w

-- The low 64 bits, as a two's complement number: a cast to `i64`, and what `i64` arithmetic keeps.
unfoldable pub wrap_i64 : ℤ → ℤ
unfolding low_bits
wrap_i64 a =
    let bits = low_bits 64 a in if ltb bits (2 ^ 63) then pos bits else negsuc (2 ^ 64 - 1 - bits)
