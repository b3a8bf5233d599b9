-- ===== src/Manager/Swap/Amounts.antt =====
-- What a step of a swap takes from the amounts, and how its fee is split.
use native.Mathlib.Nat.{mod-eq_of_lt}
use elysium_dex.Base.{
  ℕ, zero, suc, ◌+◌, ◌%◌, ◌-◌, ◌*◌, ◌/◌, ◌^◌, ◌≤◌, ◌<◌, ◌≡◌, ◌∙◌, ap, refl, arith, Bool, true,
  false, ltb, ◌==◌, if◌then◌else◌,
}
use elysium_dex.Base.Words.{u64_mod, u128_mod, add_u64, sub_u64, add_u128}
use elysium_dex.Errors.{ok, err, amount_remaining_overflow, amount_calc_overflow}
use elysium_dex.Math.Swap.{SwapStepComputation, into_u64}
use elysium_dex.Math.Token.{protocol_fee_rate_mul_value}
use elysium_dex.Manager.Swap.{trade_amounts, calculate_protocol_fee, calculate_fees, add_fee_growth}

-- What the step trades of the specified amount, and of the other one: the trader pays the fee with
-- the input.
abbrev pub specified : Bool → SwapStepComputation → ℕ
specified is_input c = if is_input then c.amount_in + c.fee_amount else c.amount_out

abbrev pub calculated : Bool → SwapStepComputation → ℕ
calculated is_input c = if is_input then c.amount_out else c.amount_in + c.fee_amount

-- All outcomes of the bookkeeping of a step: the specified amount is taken off exactly what remains
-- and the other one is added exactly, unless the one exceeds what remains or the other overflows.
pub trade_amounts_lem :
    (is_input : Bool) (remaining total : ℕ) (c : SwapStepComputation)
    → trade_amounts is_input remaining total c ≡ (
        if ltb remaining (specified is_input c)
        then err amount_remaining_overflow
        else if ltb (total + calculated is_input c) u64_mod
        then ok (remaining - specified is_input c, total + calculated is_input c)
        else err amount_calc_overflow)
unfolding trade_amounts
trade_amounts_lem true remaining total c = ground arith
trade_amounts_lem false remaining total c = ground arith

-- The protocol's part of a fee.
abbrev pub protocol_part : ℕ → ℕ → ℕ
protocol_part fee rate = fee * rate / protocol_fee_rate_mul_value

product_bound : (fee rate : ℕ) → rate ≤ 10_000 → fee * rate ≤ fee * 10_000
product_bound fee rate h = grind arith

calculate_protocol_fee_lem :
    (fee rate : ℕ)
    → fee < u64_mod
    → rate ≤ protocol_fee_rate_mul_value
    → calculate_protocol_fee fee rate ≡ ok (protocol_part fee rate)
unfolding calculate_protocol_fee into_u64
calculate_protocol_fee_lem fee rate hf hr =
    let bound = product_bound fee rate hr in
    let small : fee * rate % u128_mod ≡ fee * rate = mod-eq_of_lt (omega arith) in
    rw small (ground arith)

positive : (n : ℕ) → ltb 0 (suc n) ≡ true
positive n = ground arith

with_fee_rest :
    (fee part liquidity growth : ℕ)
    → fee < u64_mod
    → part ≤ fee
    → add_fee_growth (sub_u64 fee part) liquidity growth
      ≡ (if liquidity == 0 then growth else add_u128 growth ((fee - part) * u64_mod / liquidity))
unfolding add_fee_growth
with_fee_rest fee part liquidity growth hf hp =
    let exact : sub_u64 fee part ≡ fee - part = omega arith in
    let small : (fee - part) * 2 ^ 64 % u128_mod ≡ (fee - part) * 2 ^ 64 =
      mod-eq_of_lt (omega arith) in
    rw (exact, small) (ground arith)

-- For a protocol rate of at most one, and a fee and an amount owed that are `u64`, the fee is
-- split without a rest and without a panic: the protocol is owed its part, rounded down, and the
-- liquidity, where there is any, grows by all that remains of the fee.
pub calculate_fees_lem :
    (fee rate liquidity owed growth : ℕ)
    → fee < u64_mod
    → rate ≤ protocol_fee_rate_mul_value
    → owed < u64_mod
    → (protocol_part fee rate ≤ fee)
      × (calculate_fees fee rate liquidity owed growth
          ≡ ok (
            add_u64 owed (protocol_part fee rate),
            if liquidity == 0
                then growth
                else add_u128 growth ((fee - protocol_part fee rate) * u64_mod / liquidity),
          ))
unfolding calculate_fees
calculate_fees_lem fee zero liquidity owed growth hf hr ho =
    let none_taken : protocol_part fee 0 ≡ 0 = omega arith in
    let whole : fee ≡ sub_u64 fee 0 = omega arith in
    let same_owed : add_u64 owed 0 ≡ owed = omega arith in
    let rest = with_fee_rest fee 0 liquidity growth hf (omega arith) in
    (
      omega arith,
      rw (none_taken, same_owed)
          (ap (λ g. ok (owed, g)) (ap (λ f. add_fee_growth f liquidity growth) whole ∙ rest)),
    )
calculate_fees_lem fee (suc rate) liquidity owed growth hf hr ho =
    let bound : protocol_part fee (suc rate) ≤ fee =
      omega (arith, product_bound fee (suc rate) hr) in
    (
      bound,
      rw (calculate_protocol_fee_lem fee (suc rate) hf hr)
          (rw (positive rate) (rw (with_fee_rest fee _ liquidity growth hf bound) refl)),
    )
