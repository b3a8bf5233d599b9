-- ===== src/Math/Liquidity.antt =====
-- programs/elysium/src/math/liquidity_math.rs: signed changes of an unsigned liquidity.
pub mod Exact
use elysium_dex.Base.{ℕ, Bool, ltb, if◌then◌else◌}
use elysium_dex.Base.Int.{ℤ, pos, magnitude, eqb_ℤ, ltb_ℤ}
use elysium_dex.Base.Words.{i128_max, as_u128, wrap_signed, checked_add_u128, checked_sub, neg_i128}
use elysium_dex.Errors.{
  Result, ok, err, ok_or, liquidity_overflow, liquidity_underflow, liquidity_too_high,
}

-- `delta.abs() as u128`; the absolute value of the least `i128` wraps to itself.
unfoldable pub abs_u128 : ℤ → ℕ
abs_u128 delta = as_u128 (wrap_signed i128_max (pos (magnitude delta)))

unfoldable pub add_liquidity_delta : ℕ → ℤ → Result ℕ
unfolding abs_u128
add_liquidity_delta liquidity delta =
    if eqb_ℤ delta (pos 0)
    then ok liquidity
    else if ltb_ℤ (pos 0) delta
    then ok_or (checked_add_u128 liquidity (as_u128 delta)) liquidity_overflow
    else ok_or (checked_sub liquidity (abs_u128 delta)) liquidity_underflow

unfoldable pub convert_to_liquidity_delta : ℕ → Bool → Result ℤ
unfolding neg_i128
convert_to_liquidity_delta liquidity_amount positive =
    if ltb i128_max liquidity_amount
    then err liquidity_too_high
    else ok (if positive then pos liquidity_amount else neg_i128 (pos liquidity_amount))
