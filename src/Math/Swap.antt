-- ===== src/Math/Swap.antt =====
-- programs/elysium/src/math/swap_math.rs: one step of a swap, up to a target price.
pub mod Parts
pub mod Inputs
pub mod InputsA
pub mod Outputs
use elysium_dex.Base.{ℕ, Bool, not, ◌&&◌, ltb, leb, same, ◌==◌, if◌then◌else◌}
use elysium_dex.Base.Words.{u64_max, sub_u64, sub_u128}
use elysium_dex.Errors.{Result, ok, err, ◌>>=◌, number_cast_error}
use elysium_dex.Math.Bit.{checked_mul_div, checked_mul_div_round_up}
use elysium_dex.Math.Token.{
  fee_rate_mul_value, get_amount_delta_a, get_amount_delta_b, get_next_sqrt_price,
}

pub record SwapStepComputation : Type 0 where
  pub amount_in : ℕ
  pub amount_out : ℕ
  pub next_price : ℕ
  pub fee_amount : ℕ

-- `u128` to `u64`, `try_into()?`
unfoldable pub into_u64 : ℕ → Result ℕ
into_u64 n = if leb n u64_max then ok n else err number_cast_error

unfoldable pub get_amount_fixed_delta : ℕ → ℕ → ℕ → Bool → Bool → Result ℕ
unfolding get_amount_delta_a get_amount_delta_b
get_amount_fixed_delta current target liquidity amount_specified_is_input a_to_b =
    if same a_to_b amount_specified_is_input
    then get_amount_delta_a current target liquidity amount_specified_is_input
    else get_amount_delta_b current target liquidity amount_specified_is_input

unfoldable pub get_amount_unfixed_delta : ℕ → ℕ → ℕ → Bool → Bool → Result ℕ
unfolding get_amount_delta_a get_amount_delta_b
get_amount_unfixed_delta current target liquidity amount_specified_is_input a_to_b =
    if same a_to_b amount_specified_is_input
    then get_amount_delta_b current target liquidity (not amount_specified_is_input)
    else get_amount_delta_a current target liquidity (not amount_specified_is_input)

-- What is left of the amount to trade once the fee is taken off an input.
unfoldable pub amount_less_fee : ℕ → ℕ → Bool → Result ℕ
unfolding checked_mul_div into_u64
amount_less_fee amount_remaining fee_rate amount_specified_is_input =
    if amount_specified_is_input
    then (do
      n ← checked_mul_div amount_remaining (sub_u128 fee_rate_mul_value fee_rate) fee_rate_mul_value
      into_u64 n)
    else ok amount_remaining

-- The fee of the step. Where an input ends the swap, what is not traded is the fee.
unfoldable pub step_fee : ℕ → ℕ → ℕ → Bool → Result ℕ
unfolding checked_mul_div_round_up into_u64
step_fee amount_remaining amount_in fee_rate input_ends_swap =
    if input_ends_swap then ok (sub_u64 amount_remaining amount_in) else (do
      n ← checked_mul_div_round_up amount_in fee_rate (sub_u128 fee_rate_mul_value fee_rate)
      into_u64 n)

unfoldable pub compute_swap : ℕ → ℕ → ℕ → ℕ → ℕ → Bool → Bool → Result SwapStepComputation
unfolding get_amount_fixed_delta get_amount_unfixed_delta amount_less_fee step_fee
    get_next_sqrt_price
compute_swap amount_remaining fee_rate liquidity current target amount_specified_is_input a_to_b =
    do
      full_fixed_delta ←
          get_amount_fixed_delta current target liquidity amount_specified_is_input a_to_b
      amount_calc ← amount_less_fee amount_remaining fee_rate amount_specified_is_input
      next_sqrt_price ←
          (if leb full_fixed_delta amount_calc
            then ok target
            else get_next_sqrt_price current liquidity amount_calc amount_specified_is_input a_to_b)
      let is_max_swap = next_sqrt_price == target
      amount_unfixed_delta ←
          get_amount_unfixed_delta current next_sqrt_price liquidity amount_specified_is_input
            a_to_b
      amount_fixed_delta ←
          (if is_max_swap
            then ok full_fixed_delta
            else get_amount_fixed_delta current next_sqrt_price liquidity amount_specified_is_input
                a_to_b)
      let amount_in = if amount_specified_is_input then amount_fixed_delta else amount_unfixed_delta
      let uncapped = if amount_specified_is_input then amount_unfixed_delta else amount_fixed_delta
      let amount_out =
          if not amount_specified_is_input && ltb amount_remaining uncapped
          then amount_remaining
          else uncapped
      fee_amount ←
          step_fee amount_remaining amount_in fee_rate
            (amount_specified_is_input && not is_max_swap)
      ok (record {
        amount_in = amount_in;
        amount_out = amount_out;
        next_price = next_sqrt_price;
        fee_amount = fee_amount;
      })
