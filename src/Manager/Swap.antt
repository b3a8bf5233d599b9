-- ===== src/Manager/Swap.antt =====
-- programs/elysium/src/manager/swap_manager.rs: a swap, step by step through the ticks.
pub mod Amounts
pub mod Loop
use elysium_dex.Base.{
  ℕ, zero, suc, ◌+◌, ◌-◌, ◌*◌, ◌/◌, ◌%◌, ◌^◌, Bool, true, false, not, ◌&&◌, ◌||◌, Option, none,
  some, Triple, max, min, ltb, same, ◌==◌, if◌then◌else◌,
}
use elysium_dex.Base.Int.{ℤ, pos, eqb_ℤ}
use elysium_dex.Base.Words.{
  add_u64, sub_u64, add_u128, mul_u128, u128_mod, checked_add_u64, checked_sub, neg_i128, sub_i32,
}
use elysium_dex.Errors.{
  Result, ok, err, panic, ok_or, unwrap_ok, fail_if, ◌>>=◌, ◌>>◌, amount_calc_overflow,
  amount_remaining_overflow, invalid_sqrt_price_limit_direction, sqrt_price_out_of_bounds,
  zero_tradable_amount,
}
use elysium_dex.Math.Liquidity.{add_liquidity_delta}
use elysium_dex.Math.Swap.{SwapStepComputation, compute_swap, into_u64}
use elysium_dex.Math.Tick.{
  max_sqrt_price_x64, min_sqrt_price_x64, sqrt_price_from_tick_index, tick_index_from_sqrt_price,
}
use elysium_dex.Math.Token.{protocol_fee_rate_mul_value}
use elysium_dex.State.RewardInfo.{ElysiumPoolRewardInfo}
use elysium_dex.State.Pool.{ElysiumPool}
use elysium_dex.State.Tick.{Tick, TickUpdate, tick_array_size}
use elysium_dex.Manager.Pool.{next_pool_reward_infos}
use elysium_dex.Manager.Tick.{next_tick_cross_update}
use elysium_dex.Util.SwapTickSequence as Sequence
use elysium_dex.Util.SwapTickSequence.{
  SwapTickSequence, get_next_initialized_tick_index, get_tick_offset,
}

pub record PostSwapUpdate : Type 0 where
  pub amount_a : ℕ
  pub amount_b : ℕ
  pub next_liquidity : ℕ
  pub next_tick_index : ℤ
  pub next_sqrt_price : ℕ
  pub next_fee_growth_global : ℕ
  pub next_reward_infos : Triple ElysiumPoolRewardInfo
  pub next_protocol_fee : ℕ

unfoldable pub calculate_protocol_fee : ℕ → ℕ → Result ℕ
unfolding into_u64
calculate_protocol_fee global_fee protocol_fee_rate =
    unwrap_ok (into_u64 (mul_u128 global_fee protocol_fee_rate / protocol_fee_rate_mul_value))

-- The fee growth that a fee adds, `(global_fee << 64) / curr_liquidity`.
unfoldable pub add_fee_growth : ℕ → ℕ → ℕ → ℕ
add_fee_growth global_fee curr_liquidity fee_growth =
    if ltb 0 curr_liquidity
    then add_u128 fee_growth (global_fee * 2 ^ 64 % u128_mod / curr_liquidity)
    else fee_growth

unfoldable pub calculate_fees : ℕ → ℕ → ℕ → ℕ → ℕ → Result (ℕ × ℕ)
unfolding calculate_protocol_fee add_fee_growth
calculate_fees fee_amount protocol_fee_rate curr_liquidity protocol_fee fee_growth = do
  delta ←
      if ltb 0 protocol_fee_rate then calculate_protocol_fee fee_amount protocol_fee_rate else ok 0
  let global_fee = if ltb 0 protocol_fee_rate then sub_u64 fee_amount delta else fee_amount
  let next_protocol_fee =
      if ltb 0 protocol_fee_rate then add_u64 protocol_fee delta else protocol_fee
  ok (next_protocol_fee, add_fee_growth global_fee curr_liquidity fee_growth)

unfoldable pub calculate_update :
    Tick → Bool → ℕ → ℕ → ℕ → Triple ElysiumPoolRewardInfo → Result (TickUpdate × ℕ)
unfolding next_tick_cross_update add_liquidity_delta neg_i128
calculate_update tick a_to_b liquidity fee_growth_global_a fee_growth_global_b reward_infos = do
  let signed_liquidity_net = if a_to_b then neg_i128 tick.liquidity_net else tick.liquidity_net
  update ← next_tick_cross_update tick fee_growth_global_a fee_growth_global_b reward_infos
  next_liquidity ← add_liquidity_delta liquidity signed_liquidity_net
  ok (update, next_liquidity)

unfoldable pub get_next_sqrt_prices : ℤ → ℕ → Bool → Result (ℕ × ℕ)
unfolding sqrt_price_from_tick_index
get_next_sqrt_prices next_tick_index sqrt_price_limit a_to_b = do
  next_tick_price ← sqrt_price_from_tick_index next_tick_index
  ok (
    next_tick_price,
    if a_to_b then max sqrt_price_limit next_tick_price else min sqrt_price_limit next_tick_price,
  )

-- The variables of the loop of `swap`, with the tick arrays that it writes.
pub record SwapState : Type 0 where
  pub amount_remaining : ℕ
  pub amount_calculated : ℕ
  pub curr_sqrt_price : ℕ
  pub curr_tick_index : ℤ
  pub curr_liquidity : ℕ
  pub curr_protocol_fee : ℕ
  pub curr_array_index : ℕ
  pub curr_fee_growth_global_input : ℕ
  pub arrays : SwapTickSequence

-- The arguments of `swap` that its loop reads, with the pool and the rewards' growth.
pub record SwapInput : Type 0 where
  pub pool : ElysiumPool
  pub sqrt_price_limit : ℕ
  pub amount_specified_is_input : Bool
  pub a_to_b : Bool
  pub next_reward_infos : Triple ElysiumPoolRewardInfo

-- What a step leaves to trade, and the amount calculated so far.
unfoldable pub trade_amounts : Bool → ℕ → ℕ → SwapStepComputation → Result (ℕ × ℕ)
trade_amounts true remaining calculated c = do
  less_in ← ok_or (checked_sub remaining c.amount_in) amount_remaining_overflow
  less_fee ← ok_or (checked_sub less_in c.fee_amount) amount_remaining_overflow
  total ← ok_or (checked_add_u64 calculated c.amount_out) amount_calc_overflow
  ok (less_fee, total)
trade_amounts false remaining calculated c = do
  less_out ← ok_or (checked_sub remaining c.amount_out) amount_remaining_overflow
  with_in ← ok_or (checked_add_u64 calculated c.amount_in) amount_calc_overflow
  total ← ok_or (checked_add_u64 with_in c.fee_amount) amount_calc_overflow
  ok (less_out, total)

-- `swap_tick_sequence.get_tick(..).map_or_else(|_| (None, false), ..)`, kept if it is initialised.
unfoldable pub initialized_tick : Result Tick → Result (Option Tick)
initialized_tick (ok tick) = ok (if tick.initialized then some tick else none)
initialized_tick (err e) = ok none
initialized_tick panic = panic

-- Crossing an initialised tick: the liquidity beyond it, and the arrays with the tick updated.
unfoldable pub cross_tick :
    SwapInput → SwapState → ℕ → ℤ → Option Tick → Result (ℕ × SwapTickSequence)
unfolding calculate_update Sequence.update_tick
cross_tick i s array_index tick_index none = ok (s.curr_liquidity, s.arrays)
cross_tick i s array_index tick_index (some tick) = do
  let growth = s.curr_fee_growth_global_input
  let growth_a = if i.a_to_b then growth else i.pool.fee_growth_global_a
  let growth_b = if i.a_to_b then i.pool.fee_growth_global_b else growth
  (update, next_liquidity) ←
      calculate_update tick i.a_to_b s.curr_liquidity growth_a growth_b i.next_reward_infos
  arrays ← Sequence.update_tick s.arrays array_index tick_index i.pool.tick_spacing update
  ok (next_liquidity, arrays)

-- The branch of a step that ends at the next tick's price.
unfoldable pub reach_tick : SwapInput → SwapState → ℕ → ℤ → Result SwapState
unfolding Sequence.get_tick initialized_tick cross_tick get_tick_offset sub_i32
reach_tick i s array_index tick_index = do
  found ← initialized_tick (Sequence.get_tick s.arrays array_index tick_index i.pool.tick_spacing)
  (next_liquidity, arrays) ← cross_tick i s array_index tick_index found
  offset ← get_tick_offset arrays array_index tick_index i.pool.tick_spacing
  let leaves_array =
      (i.a_to_b && eqb_ℤ offset (pos 0))
      || (not i.a_to_b && eqb_ℤ offset (pos (tick_array_size - 1)))
  ok (record s {
    curr_liquidity = next_liquidity;
    arrays = arrays;
    curr_array_index = if leaves_array then array_index + 1 else array_index;
    curr_tick_index = if i.a_to_b then sub_i32 tick_index (pos 1) else tick_index;
  })

-- Where a step leaves the tick index: at the next tick, within the current one, or in between.
unfoldable pub move_tick : SwapInput → SwapState → ℕ → ℤ → ℕ → ℕ → Result SwapState
unfolding reach_tick tick_index_from_sqrt_price
move_tick i s array_index tick_index next_tick_sqrt_price next_price =
    if next_price == next_tick_sqrt_price
    then reach_tick i s array_index tick_index
    else if not (next_price == s.curr_sqrt_price)
    then (do
      index ← tick_index_from_sqrt_price next_price
      ok (record s { curr_tick_index = index }))
    else ok s

-- What a step does with the result of `compute_swap`: the amounts, the fees, and the move.
unfoldable pub settle : SwapInput → SwapState → ℕ → ℤ → ℕ → SwapStepComputation → Result SwapState
settle i s array_index tick_index next_tick_sqrt_price c = do
  (remaining, calculated) ←
      trade_amounts i.amount_specified_is_input s.amount_remaining s.amount_calculated c
  (protocol_fee, fee_growth) ←
      calculate_fees c.fee_amount i.pool.protocol_fee_rate s.curr_liquidity s.curr_protocol_fee
        s.curr_fee_growth_global_input
  moved ←
      move_tick i
        (record s {
          amount_remaining = remaining;
          amount_calculated = calculated;
          curr_protocol_fee = protocol_fee;
          curr_fee_growth_global_input = fee_growth;
        })
        array_index tick_index next_tick_sqrt_price c.next_price
  ok (record moved { curr_sqrt_price = c.next_price })

-- The body of the loop.
unfoldable pub swap_step : SwapInput → SwapState → Result SwapState
swap_step i s = do
  (array_index, tick_index) ←
      get_next_initialized_tick_index s.arrays s.curr_tick_index i.pool.tick_spacing i.a_to_b
        s.curr_array_index
  (next_tick_sqrt_price, target) ← get_next_sqrt_prices tick_index i.sqrt_price_limit i.a_to_b
  c ←
      compute_swap s.amount_remaining i.pool.fee_rate s.curr_liquidity s.curr_sqrt_price target
        i.amount_specified_is_input i.a_to_b
  settle i s array_index tick_index next_tick_sqrt_price c

-- `while amount_remaining > 0 && sqrt_price_limit != curr_sqrt_price`; `none` is a loop out of
-- fuel.
unfoldable pub swap_loop : ℕ → SwapInput → SwapState → Option (Result SwapState)
swap_loop zero i s = none
swap_loop (suc fuel) i s =
    if ltb 0 s.amount_remaining && not (i.sqrt_price_limit == s.curr_sqrt_price)
    then elim (swap_step i s) [
      | ok s' ↦ swap_loop fuel i s'
      | err e ↦ some (err e)
      | panic ↦ some panic
    ]
    else some (ok s)

unfoldable pub start_swap : ElysiumPool → SwapTickSequence → ℕ → Bool → SwapState
start_swap p arrays amount a_to_b = record {
  amount_remaining = amount;
  amount_calculated = 0;
  curr_sqrt_price = p.sqrt_price;
  curr_tick_index = p.tick_current_index;
  curr_liquidity = p.liquidity;
  curr_protocol_fee = 0;
  curr_array_index = 0;
  curr_fee_growth_global_input = if a_to_b then p.fee_growth_global_a else p.fee_growth_global_b;
  arrays = arrays;
}

-- What `swap` returns once its loop has ended.
unfoldable pub finish_swap : SwapInput → ℕ → SwapState → PostSwapUpdate
finish_swap i amount s =
    let traded = sub_u64 amount s.amount_remaining in
    let fixed_is_a = same i.a_to_b i.amount_specified_is_input in
    record {
      amount_a = if fixed_is_a then traded else s.amount_calculated;
      amount_b = if fixed_is_a then s.amount_calculated else traded;
      next_liquidity = s.curr_liquidity;
      next_tick_index = s.curr_tick_index;
      next_sqrt_price = s.curr_sqrt_price;
      next_fee_growth_global = s.curr_fee_growth_global_input;
      next_reward_infos = i.next_reward_infos;
      next_protocol_fee = s.curr_protocol_fee;
    }

-- The checks of the arguments, before the loop.
unfoldable pub check_swap : ElysiumPool → ℕ → ℕ → Bool → Result (Unit {0})
check_swap p amount sqrt_price_limit a_to_b = do
  fail_if (ltb sqrt_price_limit min_sqrt_price_x64 || ltb max_sqrt_price_x64 sqrt_price_limit)
      sqrt_price_out_of_bounds
  fail_if
      ((a_to_b && ltb p.sqrt_price sqrt_price_limit)
        || (not a_to_b && ltb sqrt_price_limit p.sqrt_price))
      invalid_sqrt_price_limit_direction
  fail_if (amount == 0) zero_tradable_amount

-- The outcome of the loop as the outcome of `swap`, with the tick arrays as it leaves them; `none`
-- is a loop out of fuel.
unfoldable pub finish_loop :
    SwapInput → ℕ → Option (Result SwapState) → Option (Result (PostSwapUpdate × SwapTickSequence))
finish_loop i amount none = none
finish_loop i amount (some (err e)) = some (err e)
finish_loop i amount (some panic) = some panic
finish_loop i amount (some (ok s)) = some (ok (finish_swap i amount s, s.arrays))

abbrev pub swap_input : ElysiumPool → ℕ → Bool → Bool → Triple ElysiumPoolRewardInfo → SwapInput
swap_input p sqrt_price_limit amount_specified_is_input a_to_b reward_infos = record {
  pool = p;
  sqrt_price_limit = sqrt_price_limit;
  amount_specified_is_input = amount_specified_is_input;
  a_to_b = a_to_b;
  next_reward_infos = reward_infos;
}

-- The loop, and what follows it, once the checks have passed.
unfoldable pub run_swap :
    ℕ
    → ElysiumPool
    → SwapTickSequence
    → ℕ
    → ℕ
    → Bool
    → Bool
    → Result (Triple ElysiumPoolRewardInfo)
    → Option (Result (PostSwapUpdate × SwapTickSequence))
run_swap fuel p arrays amount sqrt_price_limit amount_specified_is_input a_to_b (err e) =
    some (err e)
run_swap fuel p arrays amount sqrt_price_limit amount_specified_is_input a_to_b panic = some panic
run_swap fuel p arrays amount sqrt_price_limit amount_specified_is_input a_to_b (ok reward_infos) =
    let i = swap_input p sqrt_price_limit amount_specified_is_input a_to_b reward_infos in
    finish_loop i amount (swap_loop fuel i (start_swap p arrays amount a_to_b))

unfoldable pub swap :
    ℕ
    → ElysiumPool
    → SwapTickSequence
    → ℕ
    → ℕ
    → Bool
    → Bool
    → ℕ
    → Option (Result (PostSwapUpdate × SwapTickSequence))
swap fuel p arrays amount sqrt_price_limit amount_specified_is_input a_to_b timestamp =
    run_swap fuel p arrays amount sqrt_price_limit amount_specified_is_input a_to_b
      (check_swap p amount sqrt_price_limit a_to_b >> next_pool_reward_infos p timestamp)
