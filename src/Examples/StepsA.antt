-- ===== src/Examples/StepsA.antt =====
-- Prices and single steps of a swap with an amount of A.
use elysium_dex.Base.{ℕ, ◌+◌, ◌*◌, ◌<◌, ◌≤◌, ◌≡◌, ◌⊎◌, refl, arith, true, false}
use elysium_dex.Base.Words.{u64_mod}
use elysium_dex.Errors.{ok}
use elysium_dex.Math.Token.{get_amount_delta_a, get_next_sqrt_price_from_a_round_up}
use elysium_dex.Math.Token.CurveA.{next_price-get_amount_delta_a, next_price_up-get_amount_delta_a}
use elysium_dex.Math.Swap.{SwapStepComputation, compute_swap}
use elysium_dex.Math.Swap.InputsA.{compute_swap-Fills_input_a}

abbrev one : ℕ
one = 0x1_0000_0000_0000_0000

abbrev liquidity : ℕ
liquidity = 1_000_000_000

moves_down : get_next_sqrt_price_from_a_round_up one liquidity 997 true ≡ ok 18446725682324046339
unfolding get_next_sqrt_price_from_a_round_up
moves_down = refl

costs : get_amount_delta_a one 18446725682324046339 liquidity true ≡ ok 997
unfolding get_amount_delta_a
costs = refl

next_price-get_amount_delta_a_example :
    (18446725682324046339 ≤ one)
    × (997 ≤ 997)
    × (18446725682324046339 * (liquidity * u64_mod + one * 997)
        < liquidity * one * u64_mod + (liquidity * u64_mod + one * 997))
next_price-get_amount_delta_a_example =
    next_price-get_amount_delta_a one liquidity 997 18446725682324046339 997 (omega arith)
      (omega arith) (omega arith) (omega arith) moves_down costs

moves_up : get_next_sqrt_price_from_a_round_up one liquidity 1000 false ≡ ok 18446762520472072089
unfolding get_next_sqrt_price_from_a_round_up
moves_up = refl

gives : get_amount_delta_a one 18446762520472072089 liquidity false ≡ ok 1000
unfolding get_amount_delta_a
gives = refl

next_price_up-get_amount_delta_a_example : (one ≤ 18446762520472072089) × (1000 ≤ 1000)
next_price_up-get_amount_delta_a_example =
    next_price_up-get_amount_delta_a one liquidity 1000 18446762520472072089 1000 (omega arith)
      (omega arith) (omega arith) (omega arith) moves_up gives

abbrev input_step : SwapStepComputation
input_step = record {
  amount_in = 997;
  amount_out = 996;
  next_price = 18446725682324046339;
  fee_amount = 3;
}

input_runs :
    compute_swap 1000 3000 liquidity one 18_000_000_000_000_000_000 true true ≡ ok input_step
unfolding compute_swap
input_runs = refl

compute_swap-Fills_input_a_example :
    (18446725682324046339 ≤ one)
    × (18_000_000_000_000_000_000 ≤ 18446725682324046339)
    × (997 + 3 ≤ 1000)
    × ((input_step.next_price ≡ 18_000_000_000_000_000_000) ⊎ (input_step.amount_in + 3 ≡ 1000))
compute_swap-Fills_input_a_example =
    compute_swap-Fills_input_a 1000 3000 liquidity one 18_000_000_000_000_000_000 input_step
      (omega arith) (omega arith) (omega arith) (omega arith) (omega arith) input_runs
