-- ===== src/Manager/Liquidity.antt =====
-- programs/elysium/src/manager/liquidity_manager.rs: adding liquidity to a position or taking it.
use elysium_dex.Base.{ℕ, true, false, ◌&&◌, Triple, ◌==◌, if◌then◌else◌}
use elysium_dex.Base.Int.{ℤ, pos, eqb_ℤ, ltb_ℤ}
use elysium_dex.Errors.{Result, ok, fail_if, ◌>>=◌, ◌>>◌, liquidity_zero}
use elysium_dex.Math.Liquidity.{abs_u128}
use elysium_dex.Math.Tick.{sqrt_price_from_tick_index}
use elysium_dex.Math.Token.{get_amount_delta_a, get_amount_delta_b}
use elysium_dex.State.RewardInfo.{ElysiumPoolRewardInfo}
use elysium_dex.State.Pool.{ElysiumPool, update_rewards_and_liquidity}
use elysium_dex.State.Position as PositionState
use elysium_dex.State.Position.{Position, PositionUpdate}
use elysium_dex.State.Tick.{Tick, TickUpdate}
use elysium_dex.State.TickArray.{TickArray, get_tick, update_tick}
use elysium_dex.Manager.Tick.{
  next_tick_modify_liquidity_update, next_fee_growths_inside, next_reward_growths_inside,
}
use elysium_dex.Manager.Pool.{next_pool_reward_infos, next_pool_liquidity}
use elysium_dex.Manager.Position.{next_position_modify_liquidity_update}

pub record ModifyLiquidityUpdate : Type 0 where
  pub pool_liquidity : ℕ
  pub tick_lower_update : TickUpdate
  pub tick_upper_update : TickUpdate
  pub reward_infos : Triple ElysiumPoolRewardInfo
  pub position_update : PositionUpdate

-- The accounts of the lower and the upper tick array, which may be one account.
pub data TickArrayPair : Type 0 where
  shared : TickArray → TickArrayPair
  apart : TickArray → TickArray → TickArrayPair

abbrev pub lower_array : TickArrayPair → TickArray
lower_array (shared a) = a
lower_array (apart a b) = a

abbrev pub upper_array : TickArrayPair → TickArray
upper_array (shared a) = a
upper_array (apart a b) = b

abbrev pub write_lower : TickArrayPair → TickArray → TickArrayPair
write_lower (shared _) a = shared a
write_lower (apart _ b) a = apart a b

abbrev pub write_upper : TickArrayPair → TickArray → TickArrayPair
write_upper (shared _) b = shared b
write_upper (apart a _) b = apart a b

-- `_calculate_modify_liquidity`
unfoldable pub calculate_from_ticks :
    ElysiumPool → Position → Tick → Tick → ℤ → ℤ → ℤ → ℕ → Result ModifyLiquidityUpdate
unfolding next_pool_reward_infos next_pool_liquidity next_tick_modify_liquidity_update
    next_fee_growths_inside next_reward_growths_inside next_position_modify_liquidity_update
calculate_from_ticks p position tick_lower tick_upper lower_index upper_index delta timestamp = do
  fail_if (eqb_ℤ delta (pos 0) && position.liquidity == 0) liquidity_zero
  let current = p.tick_current_index
  let global_a = p.fee_growth_global_a
  let global_b = p.fee_growth_global_b
  next_reward_infos ← next_pool_reward_infos p timestamp
  next_global_liquidity ←
      next_pool_liquidity p position.tick_upper_index position.tick_lower_index delta
  lower_update ←
      next_tick_modify_liquidity_update tick_lower lower_index current global_a global_b
        next_reward_infos delta false
  upper_update ←
      next_tick_modify_liquidity_update tick_upper upper_index current global_a global_b
        next_reward_infos delta true
  let (inside_a, inside_b) =
      next_fee_growths_inside current tick_lower lower_index tick_upper upper_index global_a
        global_b
  let reward_growths_inside =
      next_reward_growths_inside current tick_lower lower_index tick_upper upper_index
        next_reward_infos
  position_update ←
      next_position_modify_liquidity_update position delta inside_a inside_b reward_growths_inside
  ok (record {
    pool_liquidity = next_global_liquidity;
    tick_lower_update = lower_update;
    tick_upper_update = upper_update;
    reward_infos = next_reward_infos;
    position_update = position_update;
  })

unfoldable pub calculate_modify_liquidity :
    ElysiumPool → Position → TickArrayPair → ℤ → ℕ → Result ModifyLiquidityUpdate
unfolding get_tick calculate_from_ticks
calculate_modify_liquidity p position arrays delta timestamp = do
  tick_lower ← get_tick (lower_array arrays) position.tick_lower_index p.tick_spacing
  tick_upper ← get_tick (upper_array arrays) position.tick_upper_index p.tick_spacing
  calculate_from_ticks p position tick_lower tick_upper position.tick_lower_index
      position.tick_upper_index delta timestamp

unfoldable pub calculate_fee_and_reward_growths :
    ElysiumPool
    → Position
    → TickArrayPair
    → ℕ
    → Result (PositionUpdate × Triple ElysiumPoolRewardInfo)
unfolding get_tick calculate_from_ticks
calculate_fee_and_reward_growths p position arrays timestamp = do
  tick_lower ← get_tick (lower_array arrays) position.tick_lower_index p.tick_spacing
  tick_upper ← get_tick (upper_array arrays) position.tick_upper_index p.tick_spacing
  update ←
      calculate_from_ticks p position tick_lower tick_upper position.tick_lower_index
        position.tick_upper_index (pos 0) timestamp
  ok (update.position_update, update.reward_infos)

unfoldable pub calculate_liquidity_token_deltas : ℤ → ℕ → Position → ℤ → Result (ℕ × ℕ)
unfolding abs_u128 sqrt_price_from_tick_index get_amount_delta_a get_amount_delta_b
calculate_liquidity_token_deltas current_tick_index sqrt_price position liquidity_delta = do
  fail_if (eqb_ℤ liquidity_delta (pos 0)) liquidity_zero
  let liquidity = abs_u128 liquidity_delta
  let round_up = ltb_ℤ (pos 0) liquidity_delta
  lower_price ← sqrt_price_from_tick_index position.tick_lower_index
  upper_price ← sqrt_price_from_tick_index position.tick_upper_index
  if ltb_ℤ current_tick_index position.tick_lower_index
      then (do
        delta_a ← get_amount_delta_a lower_price upper_price liquidity round_up
        ok (delta_a, 0))
      else if ltb_ℤ current_tick_index position.tick_upper_index
      then (do
        delta_a ← get_amount_delta_a sqrt_price upper_price liquidity round_up
        delta_b ← get_amount_delta_b lower_price sqrt_price liquidity round_up
        ok (delta_a, delta_b))
      else (do
        delta_b ← get_amount_delta_b lower_price upper_price liquidity round_up
        ok (0, delta_b))

-- The accounts that `sync_modify_liquidity_values` writes.
pub record LiquidityAccounts : Type 0 where
  pub pool : ElysiumPool
  pub position : Position
  pub arrays : TickArrayPair

unfoldable pub sync_modify_liquidity_values :
    LiquidityAccounts → ModifyLiquidityUpdate → ℕ → Result LiquidityAccounts
unfolding PositionState.update update_tick update_rewards_and_liquidity
sync_modify_liquidity_values acc u timestamp = do
  let position = PositionState.update acc.position u.position_update
  let spacing = acc.pool.tick_spacing
  lower ← update_tick (lower_array acc.arrays) position.tick_lower_index spacing u.tick_lower_update
  let arrays = write_lower acc.arrays lower
  upper ← update_tick (upper_array arrays) position.tick_upper_index spacing u.tick_upper_update
  ok (record {
    pool = update_rewards_and_liquidity acc.pool u.reward_infos u.pool_liquidity timestamp;
    position = position;
    arrays = write_upper arrays upper;
  })
