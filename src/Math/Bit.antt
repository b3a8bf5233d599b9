-- ===== src/Math/Bit.antt =====
-- programs/elysium/src/math/bit_math.rs: products, quotients and shifts with a chosen rounding.
pub mod Rounding
pub mod Quotient
use Prim.Native.Nat.{bit_and}
use elysium_dex.Base.{
  ℕ, ◌/◌, ◌%◌, ◌^◌, Bool, true, false, not, ◌&&◌, ◌||◌, ltb, ◌==◌, if◌then◌else◌,
}
use elysium_dex.Base.Words.{u64_max, checked_mul_u128, as_u64, add_u128, add_u64}
use elysium_dex.Errors.{
  Result, ok, ok_or, fail_if, ◌>>=◌, ◌>>◌, divide_by_zero, mul_div_overflow,
  multiplication_overflow, multiplication_shift_right_overflow,
}
use elysium_dex.Math.U256.{U256Muldiv, new, add, is_zero, try_into_u128}
use elysium_dex.Math.U256.Divide.{div}

unfoldable pub checked_mul_div_round_up_if : ℕ → ℕ → ℕ → Bool → Result ℕ
checked_mul_div_round_up_if n0 n1 d round_up = do
  fail_if (d == 0) divide_by_zero
  p ← ok_or (checked_mul_u128 n0 n1) mul_div_overflow
  let n = p / d
  ok (if round_up && ltb 0 (p % d) then add_u128 n 1 else n)

unfoldable pub checked_mul_div : ℕ → ℕ → ℕ → Result ℕ
unfolding checked_mul_div_round_up_if
checked_mul_div n0 n1 d = checked_mul_div_round_up_if n0 n1 d false

unfoldable pub checked_mul_div_round_up : ℕ → ℕ → ℕ → Result ℕ
unfolding checked_mul_div_round_up_if
checked_mul_div_round_up n0 n1 d = checked_mul_div_round_up_if n0 n1 d true

-- `Q64_MASK`
abbrev q64_mask : ℕ
q64_mask = 0xffff_ffff_ffff_ffff

unfoldable pub checked_mul_shift_right_round_up_if : ℕ → ℕ → Bool → Result ℕ
checked_mul_shift_right_round_up_if n0 n1 round_up = if n0 == 0 || n1 == 0 then ok 0 else (do
  p ← ok_or (checked_mul_u128 n0 n1) multiplication_shift_right_overflow
  let result = as_u64 (p / 2 ^ 64)
  let should_round = round_up && ltb 0 (bit_and p q64_mask)
  fail_if (should_round && result == u64_max) multiplication_overflow
  ok (if should_round then add_u64 result 1 else result))

unfoldable pub checked_mul_shift_right : ℕ → ℕ → Result ℕ
unfolding checked_mul_shift_right_round_up_if
checked_mul_shift_right n0 n1 = checked_mul_shift_right_round_up_if n0 n1 false

unfoldable pub div_round_up_if : ℕ → ℕ → Bool → Result ℕ
div_round_up_if n d round_up = do
  fail_if (d == 0) divide_by_zero
  let q = n / d
  ok (if round_up && ltb 0 (n % d) then add_u128 q 1 else q)

unfoldable pub div_round_up : ℕ → ℕ → Result ℕ
unfolding div_round_up_if
div_round_up n d = div_round_up_if n d true

unfoldable pub div_round_up_if_u256 : U256Muldiv → U256Muldiv → Bool → Result ℕ
unfolding div add new is_zero try_into_u128
div_round_up_if_u256 n d round_up = do
  (quotient, remainder) ← div n d round_up
  try_into_u128 (if round_up && not (is_zero remainder) then add quotient (new 0 1) else quotient)
