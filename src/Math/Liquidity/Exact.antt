-- ===== src/Math/Liquidity/Exact.antt =====
-- `add_liquidity_delta` against addition of integers.
use elysium_dex.Base.{ℕ, ◌<◌, ◌≡◌, Bool, true, false, arith, ltb, if◌then◌else◌}
use elysium_dex.Base.Int.{ℤ, pos, negsuc, negate, ◌+ℤ◌}
use elysium_dex.Base.Words.{u128_mod, i128_max, Fits, neg_i128}
use elysium_dex.Errors.{
  Result, ok, err, ◌>>=◌, liquidity_overflow, liquidity_underflow, liquidity_too_high,
}
use elysium_dex.Math.Liquidity.{add_liquidity_delta, abs_u128, convert_to_liquidity_delta}

-- The outcome that an integer stands for: a `u128`, or which of its two bounds it breaks.
abbrev pub into_liquidity : ℤ → Result ℕ
into_liquidity (pos n) = if ltb n u128_mod then ok n else err liquidity_overflow
into_liquidity (negsuc n) = err liquidity_underflow

-- For a `u128` and an `i128`, the result is the exact sum where a `u128` holds it; a sum that is
-- too large or negative is told apart by its error.
pub add_liquidity_delta-eq-add :
    (liquidity : ℕ) (delta : ℤ)
    → liquidity < u128_mod
    → Fits i128_max delta
    → add_liquidity_delta liquidity delta ≡ into_liquidity (pos liquidity +ℤ delta)
unfolding add_liquidity_delta abs_u128 ◌+ℤ◌
add_liquidity_delta-eq-add l (pos n) hl hd = ground arith
add_liquidity_delta-eq-add l (negsuc n) hl hd = ground arith

-- Where adding a delta succeeds, taking it off again restores the liquidity, for a `u128` liquidity
-- and an `i128` delta that can be negated.
pub add_liquidity_delta_undo :
    (liquidity : ℕ) (delta : ℤ) {r : ℕ}
    → liquidity < u128_mod
    → Fits i128_max delta
    → Fits i128_max (negate delta)
    → add_liquidity_delta liquidity delta ≡ ok r
    → add_liquidity_delta r (negate delta) ≡ ok liquidity
unfolding add_liquidity_delta abs_u128
add_liquidity_delta_undo l (pos n) hl hd hn e = ground arith
add_liquidity_delta_undo l (negsuc n) hl hd hn e = ground arith

-- For a liquidity that is a `u128`, a converted amount is added to it or taken off it as it is,
-- with the overflow and the underflow told apart, and only an amount above `i128::MAX` is not
-- converted.
pub convert-add_liquidity_delta :
    (liquidity amount : ℕ) (positive : Bool)
    → liquidity < u128_mod
    → (convert_to_liquidity_delta amount positive >>= add_liquidity_delta liquidity) ≡ (
        if ltb i128_max amount
        then err liquidity_too_high
        else if positive
        then into_liquidity (pos liquidity +ℤ pos amount)
        else into_liquidity (pos liquidity +ℤ negate (pos amount)))
unfolding convert_to_liquidity_delta add_liquidity_delta abs_u128 ◌+ℤ◌ neg_i128
convert-add_liquidity_delta l a true hl = ground arith
convert-add_liquidity_delta l a false hl = ground arith
