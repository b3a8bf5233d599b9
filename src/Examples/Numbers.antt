-- ===== src/Examples/Numbers.antt =====
-- Arithmetic at concrete numbers: the ends of the price range, a division, and roundings.
use elysium_dex.Base.{◌^◌, ◌≡◌, refl, arith, true}
use elysium_dex.Base.Int.{pos, negsuc, ◌+ℤ◌, ◌-ℤ◌, ◌*ℤ◌}
use elysium_dex.Errors.{ok, err, panic, ◌>>=◌, liquidity_too_high}
use elysium_dex.Math.Bit.{checked_mul_div_round_up_if, checked_mul_shift_right_round_up_if}
use elysium_dex.Math.Bit.Rounding.{ProductOverDivisor, ProductOverWord, checked_mul_div-Rounds}
use elysium_dex.Math.Liquidity.{add_liquidity_delta, convert_to_liquidity_delta}
use elysium_dex.Math.Liquidity.Exact.{convert-add_liquidity_delta}
use elysium_dex.Math.Tick.{
  sqrt_price_from_tick_index, tick_index_from_sqrt_price, min_sqrt_price_x64, max_sqrt_price_x64,
}
use elysium_dex.Math.U256.{items}
use elysium_dex.Math.U256.Divide.{div}

min_tick_price : sqrt_price_from_tick_index (negsuc 443635) ≡ ok min_sqrt_price_x64
unfolding sqrt_price_from_tick_index
min_tick_price = refl

max_tick_price : sqrt_price_from_tick_index (pos 443636) ≡ ok max_sqrt_price_x64
unfolding sqrt_price_from_tick_index
max_tick_price = refl

max_price_tick : tick_index_from_sqrt_price max_sqrt_price_x64 ≡ ok (pos 443636)
unfolding tick_index_from_sqrt_price ◌+ℤ◌ ◌-ℤ◌ ◌*ℤ◌
max_price_tick = refl

min_price_tick : tick_index_from_sqrt_price min_sqrt_price_x64 ≡ ok (negsuc 443635)
unfolding tick_index_from_sqrt_price ◌+ℤ◌ ◌-ℤ◌ ◌*ℤ◌
min_price_tick = refl

-- A dividend of four words by a divisor of three.
div_runs :
    div (items 5 6 7 8) (items 1 2 3 0) true
    ≡ ok (items 12297829382473034411 2 0 0, items 6148914691236517210 12297829382473034413 0 0)
unfolding div
div_runs = refl

-- The quotient is 3, but the step that adds the divisor back reads past the last word.
div_panics :
    div (items 0 3 0 0x8000_0000_0000_0000) (items 1 0 0x2000_0000_0000_0000 0) true ≡ panic
unfolding div
div_panics = refl

checked_mul_div-Rounds_example :
    ProductOverDivisor 7 5 3 true (checked_mul_div_round_up_if 7 5 3 true)
    × ProductOverWord 7 5 true (checked_mul_shift_right_round_up_if 7 5 true)
checked_mul_div-Rounds_example = checked_mul_div-Rounds 7 5 3 true

convert-add_liquidity_delta_example :
    (convert_to_liquidity_delta (2 ^ 127) true >>= add_liquidity_delta 40) ≡ err liquidity_too_high
convert-add_liquidity_delta_example = convert-add_liquidity_delta 40 (2 ^ 127) true (omega arith)
