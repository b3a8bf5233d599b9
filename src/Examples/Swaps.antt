-- ===== src/Examples/Swaps.antt =====
-- A swap within one tick array.
use elysium_dex.Base.{ℕ, suc, ◌≤◌, ◌≡◌, refl, arith, true, false, some, [], ◌∷◌, length}
use elysium_dex.Base.Int.{pos, ◌+ℤ◌, ◌-ℤ◌, ◌*ℤ◌}
use elysium_dex.Errors.{ok}
use elysium_dex.State.Pool.{ElysiumPool}
use elysium_dex.State.TickArray.{TickArray, default_tick_array}
use elysium_dex.Util.SwapTickSequence.{
  SwapTickSequence, search_arrays, get_next_initialized_tick_index,
}
use elysium_dex.Util.SwapTickSequence.Termination.{
  InSequence, get_next_initialized_tick_index-InSequence,
}
use elysium_dex.Math.Swap.{SwapStepComputation}
use elysium_dex.Manager.Swap.{
  PostSwapUpdate, SwapState, swap_input, start_swap, swap_loop, swap, trade_amounts, calculate_fees,
}
use elysium_dex.Manager.Swap.Amounts.{calculate_fees_lem, protocol_part}
use elysium_dex.Manager.Swap.Loop.{Fills, swap-Fills}
use elysium_dex.Examples.Pools.{fresh}

abbrev pool : ElysiumPool
pool = record fresh { liquidity = 1_000_000_000_000 }

abbrev arrays : SwapTickSequence
arrays = record default_tick_array { start_tick_index = pos 0 } ∷ []

abbrev price_limit : ℕ
price_limit = 19_000_000_000_000_000_000

abbrev traded : PostSwapUpdate
traded = record {
  amount_a = 996;
  amount_b = 1000;
  next_liquidity = 1_000_000_000_000;
  next_tick_index = pos 0;
  next_sqrt_price = 18446744092100955457;
  next_fee_growth_global = 55340232;
  next_reward_infos = pool.reward_infos;
  next_protocol_fee = 0;
}

swap_runs : swap 2 pool arrays 1000 price_limit true false 0 ≡ some (ok (traded, arrays))
unfolding swap elysium_dex.Manager.Swap.run_swap elysium_dex.Manager.Swap.check_swap
    elysium_dex.Manager.Pool.next_pool_reward_infos elysium_dex.Manager.Swap.finish_loop
    elysium_dex.Manager.Swap.finish_swap swap_loop start_swap elysium_dex.Manager.Swap.swap_step
    get_next_initialized_tick_index elysium_dex.State.TickArray.in_search_range ◌-ℤ◌ ◌+ℤ◌ ◌*ℤ◌
    elysium_dex.State.TickArray.tick_offset elysium_dex.State.TickArray.search
    elysium_dex.Manager.Swap.get_next_sqrt_prices elysium_dex.Math.Swap.compute_swap
    elysium_dex.Manager.Swap.settle trade_amounts calculate_fees elysium_dex.Manager.Swap.move_tick
    elysium_dex.State.TickArray.get_next_init_tick_index
    elysium_dex.Math.Tick.tick_index_from_sqrt_price
swap_runs = refl

swap-Fills_example : Fills 1000 price_limit true false traded
swap-Fills_example =
    swap-Fills 2 pool arrays arrays 1000 price_limit true false 0 traded (omega arith) swap_runs

-- Swap of which nothing remains to trade.
abbrev at_rest : SwapState
at_rest = start_swap pool arrays 0 false

get_next_initialized_tick_index-InSequence_example :
    (search_arrays (suc (length arrays)) arrays (pos 5) 8 true 0
      ≡ some (get_next_initialized_tick_index arrays (pos 5) 8 true 0))
    × InSequence arrays 0 (get_next_initialized_tick_index arrays (pos 5) 8 true 0)
get_next_initialized_tick_index-InSequence_example =
    get_next_initialized_tick_index-InSequence arrays (pos 5) 8 true 0

abbrev step : SwapStepComputation
step = record { amount_in = 90; amount_out = 80; next_price = price_limit; fee_amount = 10 }

calculate_fees_lem_example :
    (protocol_part 1000 300 ≤ 1000) × (calculate_fees 1000 300 0 4 9 ≡ ok (34, 9))
calculate_fees_lem_example =
    calculate_fees_lem 1000 300 0 4 9 (omega arith) (omega arith) (omega arith)
