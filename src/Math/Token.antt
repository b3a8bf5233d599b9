-- ===== src/Math/Token.antt =====
-- programs/elysium/src/math/token_math.rs: amounts of the two tokens against prices and liquidity.
pub mod Rounding
pub mod TokenA
pub mod CurveA
use elysium_dex.Base.{ℕ, ◌*◌, ◌^◌, ◌%◌, Bool, true, not, ◌&&◌, ltb, same, ◌==◌, if◌then◌else◌}
use elysium_dex.Base.Words.{u64_max, u128_mod, sub_u128, checked_add_u128, checked_sub}
use elysium_dex.Errors.{
  Result, ok, err, ok_or, fail_if, ◌>>=◌, ◌>>◌, divide_by_zero, multiplication_overflow,
  sqrt_price_out_of_bounds, token_max_exceeded, token_min_subceeded,
}
use elysium_dex.Math.U256.{
  new, add, sub, lte, is_zero, try_into_u128, shift_word_left, checked_shift_word_left,
}
use elysium_dex.Math.U256.Multiply.{mul_u256}
use elysium_dex.Math.U256.Divide.{div}
use elysium_dex.Math.Bit.{
  checked_mul_shift_right_round_up_if, div_round_up_if, div_round_up_if_u256,
}
use elysium_dex.Math.Tick.{max_sqrt_price_x64, min_sqrt_price_x64}

abbrev pub max_fee_rate : ℕ
max_fee_rate = 30_000

abbrev pub fee_rate_mul_value : ℕ
fee_rate_mul_value = 1_000_000

abbrev pub max_protocol_fee_rate : ℕ
max_protocol_fee_rate = 2_500

abbrev pub protocol_fee_rate_mul_value : ℕ
protocol_fee_rate_mul_value = 10_000

unfoldable pub increasing_price_order : ℕ → ℕ → ℕ × ℕ
increasing_price_order sqrt_price_0 sqrt_price_1 =
    if ltb sqrt_price_1 sqrt_price_0
    then (sqrt_price_1, sqrt_price_0)
    else (sqrt_price_0, sqrt_price_1)

unfoldable pub get_amount_delta_a : ℕ → ℕ → ℕ → Bool → Result ℕ
unfolding increasing_price_order mul_u256 checked_shift_word_left div is_zero add new try_into_u128
get_amount_delta_a sqrt_price_0 sqrt_price_1 liquidity round_up = do
  let (lower, upper) = increasing_price_order sqrt_price_0 sqrt_price_1
  numerator ←
      ok_or (checked_shift_word_left (mul_u256 liquidity (sub_u128 upper lower)))
        multiplication_overflow
  (quotient, remainder) ← div numerator (mul_u256 upper lower) round_up
  result ←
      try_into_u128
        (if round_up && not (is_zero remainder) then add quotient (new 0 1) else quotient)
  fail_if (ltb u64_max result) token_max_exceeded
  ok result

unfoldable pub get_amount_delta_b : ℕ → ℕ → ℕ → Bool → Result ℕ
unfolding increasing_price_order checked_mul_shift_right_round_up_if
get_amount_delta_b sqrt_price_0 sqrt_price_1 liquidity round_up =
    let (lower, upper) = increasing_price_order sqrt_price_0 sqrt_price_1 in
    checked_mul_shift_right_round_up_if liquidity (sub_u128 upper lower) round_up

-- The guard that ends `get_next_sqrt_price_from_a_round_up`.
unfoldable pub check_price : ℕ → Result ℕ
check_price price =
    if ltb price min_sqrt_price_x64
    then err token_min_subceeded
    else if ltb max_sqrt_price_x64 price
    then err token_max_exceeded
    else ok price

unfoldable pub get_next_sqrt_price_from_a_round_up : ℕ → ℕ → ℕ → Bool → Result ℕ
unfolding mul_u256 checked_shift_word_left shift_word_left new lte add sub div_round_up_if_u256
    check_price
get_next_sqrt_price_from_a_round_up sqrt_price liquidity amount amount_specified_is_input =
    if amount == 0 then ok sqrt_price else (do
      let product = mul_u256 sqrt_price amount
      numerator ←
          ok_or (checked_shift_word_left (mul_u256 liquidity sqrt_price)) multiplication_overflow
      let liquidity_shift_left = shift_word_left (new 0 liquidity)
      fail_if (not amount_specified_is_input && lte liquidity_shift_left product) divide_by_zero
      let denominator =
          if amount_specified_is_input
          then add liquidity_shift_left product
          else sub liquidity_shift_left product
      price ← div_round_up_if_u256 numerator denominator true
      check_price price)

unfoldable pub get_next_sqrt_price_from_b_round_down : ℕ → ℕ → ℕ → Bool → Result ℕ
unfolding div_round_up_if
get_next_sqrt_price_from_b_round_down sqrt_price liquidity amount amount_specified_is_input = do
  delta ← div_round_up_if (amount * 2 ^ 64 % u128_mod) liquidity (not amount_specified_is_input)
  if amount_specified_is_input
      then ok_or (checked_add_u128 sqrt_price delta) sqrt_price_out_of_bounds
      else ok_or (checked_sub sqrt_price delta) sqrt_price_out_of_bounds

unfoldable pub get_next_sqrt_price : ℕ → ℕ → ℕ → Bool → Bool → Result ℕ
unfolding get_next_sqrt_price_from_a_round_up get_next_sqrt_price_from_b_round_down
get_next_sqrt_price sqrt_price liquidity amount amount_specified_is_input a_to_b =
    if same amount_specified_is_input a_to_b
    then get_next_sqrt_price_from_a_round_up sqrt_price liquidity amount amount_specified_is_input
    else get_next_sqrt_price_from_b_round_down sqrt_price liquidity amount amount_specified_is_input
