-- ===== src/Examples/Steps.antt =====
-- Exact arithmetic at four words, and single steps of a swap.
use elysium_dex.Base.{ℕ, ◌+◌, ◌-◌, ◌*◌, ◌^◌, ◌<◌, ◌≤◌, ◌≡◌, ◌⊎◌, refl, arith, true, false}
use elysium_dex.Errors.{ok}
use elysium_dex.Math.U256.{items, add, lt, gt, lte, gte, eq}
use elysium_dex.Math.U256.Multiply.{mul_u256}
use elysium_dex.Math.U256.Value.{value, AreWords, add-value, compare-value}
use elysium_dex.Math.U256.Product.{mul_u256-value}
use elysium_dex.Math.Token.{get_amount_delta_b, get_next_sqrt_price_from_b_round_down}
use elysium_dex.Math.Token.Rounding.{
  next_price-get_amount_delta_b, next_price_down-get_amount_delta_b,
}
use elysium_dex.Math.Swap.{SwapStepComputation, compute_swap}
use elysium_dex.Math.Swap.Inputs.{compute_swap-Fills_input}
use elysium_dex.Math.Swap.Outputs.{compute_swap-Fills_output}

mul_u256-value_example :
    AreWords (mul_u256 (2 ^ 127 + 3) (2 ^ 100 + 7))
    × (value (mul_u256 (2 ^ 127 + 3) (2 ^ 100 + 7)) ≡ (2 ^ 127 + 3) * (2 ^ 100 + 7))
mul_u256-value_example = mul_u256-value (2 ^ 127 + 3) (2 ^ 100 + 7) (omega arith) (omega arith)

add-value_example :
    AreWords (add (items (2 ^ 64 - 1) 2 0 0) (items 1 0 0 (2 ^ 64 - 1)))
    × (value (add (items (2 ^ 64 - 1) 2 0 0) (items 1 0 0 (2 ^ 64 - 1)))
        ≡ 2 ^ 64 * 3 + 2 ^ 192 * (2 ^ 64 - 1))
add-value_example =
    add-value (items (2 ^ 64 - 1) 2 0 0) (items 1 0 0 (2 ^ 64 - 1))
      (omega arith, omega arith, omega arith, omega arith)
      (omega arith, omega arith, omega arith, omega arith)

compare-value_example :
    (lt (items 9 0 1 0) (items 1 1 1 0) ≡ true)
    × (gt (items 9 0 1 0) (items 1 1 1 0) ≡ false)
    × (lte (items 9 0 1 0) (items 1 1 1 0) ≡ true)
    × (gte (items 9 0 1 0) (items 1 1 1 0) ≡ false)
    × (eq (items 9 0 1 0) (items 1 1 1 0) ≡ false)
compare-value_example =
    compare-value (items 9 0 1 0) (items 1 1 1 0)
      (omega arith, omega arith, omega arith, omega arith)
      (omega arith, omega arith, omega arith, omega arith)

-- The price one, and liquidity 10^12.
abbrev one : ℕ
one = 0x1_0000_0000_0000_0000

abbrev liquidity : ℕ
liquidity = 1_000_000_000_000

moves_up : get_next_sqrt_price_from_b_round_down one liquidity 997 true ≡ ok 18446744092100955457
unfolding get_next_sqrt_price_from_b_round_down
moves_up = refl

costs : get_amount_delta_b one 18446744092100955457 liquidity true ≡ ok 997
unfolding get_amount_delta_b
costs = refl

next_price-get_amount_delta_b_example :
    (one ≤ 18446744092100955457)
    × (997 ≤ 997)
    × (997 * 2 ^ 64 < (18446744092100955457 - one + 1) * liquidity)
next_price-get_amount_delta_b_example =
    next_price-get_amount_delta_b one liquidity 997 18446744092100955457 997 (omega arith)
      (omega arith) moves_up costs

moves_down :
    get_next_sqrt_price_from_b_round_down one liquidity 1000 false ≡ ok 18446744055262807542
unfolding get_next_sqrt_price_from_b_round_down
moves_down = refl

pays : get_amount_delta_b one 18446744055262807542 liquidity false ≡ ok 1000
unfolding get_amount_delta_b
pays = refl

next_price_down-get_amount_delta_b_example : (18446744055262807542 ≤ one) × (1000 ≤ 1000)
next_price_down-get_amount_delta_b_example =
    next_price_down-get_amount_delta_b one liquidity 1000 18446744055262807542 1000 (omega arith)
      (omega arith) moves_down pays

abbrev input_step : SwapStepComputation
input_step = record {
  amount_in = 997;
  amount_out = 996;
  next_price = 18446744092100955457;
  fee_amount = 3;
}

input_runs :
    compute_swap 1000 3000 liquidity one 19_000_000_000_000_000_000 true false ≡ ok input_step
unfolding compute_swap
input_runs = refl

compute_swap-Fills_input_example :
    (one ≤ 18446744092100955457)
    × (18446744092100955457 ≤ 19_000_000_000_000_000_000)
    × (997 + 3 ≤ 1000)
    × ((input_step.next_price ≡ 19_000_000_000_000_000_000) ⊎ (input_step.amount_in + 3 ≡ 1000))
compute_swap-Fills_input_example =
    compute_swap-Fills_input 1000 3000 liquidity one 19_000_000_000_000_000_000 input_step
      (omega arith) (omega arith) (omega arith) (omega arith) input_runs

abbrev output_step : SwapStepComputation
output_step = record {
  amount_in = 1001;
  amount_out = 1000;
  next_price = 18446744055262807542;
  fee_amount = 4;
}

output_runs :
    compute_swap 1000 3000 liquidity one 18_000_000_000_000_000_000 false true ≡ ok output_step
unfolding compute_swap
output_runs = refl

compute_swap-Fills_output_example :
    (18446744055262807542 ≤ one)
    × (18_000_000_000_000_000_000 ≤ 18446744055262807542)
    × (1000 ≤ 1000)
    × ((output_step.next_price ≡ 18_000_000_000_000_000_000) ⊎ (output_step.amount_out ≡ 1000))
compute_swap-Fills_output_example =
    compute_swap-Fills_output 1000 3000 liquidity one 18_000_000_000_000_000_000 output_step
      (omega arith) (omega arith) (omega arith) output_runs
