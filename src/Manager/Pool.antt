-- ===== src/Manager/Pool.antt =====
-- programs/elysium/src/manager/pool_manager.rs: reward growth over time, and the pool's liquidity.
pub mod Lifetime
pub mod Seeds
use elysium_dex.Base.{ℕ, not, ◌&&◌, ◌||◌, Triple, ltb, ◌==◌, if◌then◌else◌}
use elysium_dex.Base.Int.{ℤ, ltb_ℤ, leb_ℤ}
use elysium_dex.Base.Words.{add_u128, sub_u64}
use elysium_dex.Errors.{Result, ok, unwrap_or, fail_if, ◌>>=◌, ◌>>◌, invalid_timestamp}
use elysium_dex.Math.Bit.{checked_mul_div}
use elysium_dex.Math.Liquidity.{add_liquidity_delta}
use elysium_dex.State.RewardInfo.{ElysiumPoolRewardInfo, initialized}
use elysium_dex.State.Pool.{ElysiumPool}

-- One round of the loop of `next_pool_reward_infos`.
unfoldable pub next_reward_info : ℕ → ℕ → ElysiumPoolRewardInfo → Result ElysiumPoolRewardInfo
unfolding initialized checked_mul_div
next_reward_info time_delta liquidity r = if not (initialized r) then ok r else (do
  growth_delta ← unwrap_or (checked_mul_div time_delta r.emissions_per_second_x64 liquidity) 0
  ok (record r { growth_global_x64 = add_u128 r.growth_global_x64 growth_delta }))

unfoldable pub next_pool_reward_infos : ElysiumPool → ℕ → Result (Triple ElysiumPoolRewardInfo)
unfolding next_reward_info
next_pool_reward_infos p next_timestamp = do
  let curr_timestamp = p.reward_last_updated_timestamp
  let time_delta = sub_u64 next_timestamp curr_timestamp
  fail_if (ltb next_timestamp curr_timestamp) invalid_timestamp
  let rounds = (do
    r_0 ← next_reward_info time_delta p.liquidity p.reward_infos.at_0
    r_1 ← next_reward_info time_delta p.liquidity p.reward_infos.at_1
    r_2 ← next_reward_info time_delta p.liquidity p.reward_infos.at_2
    ok (record { at_0 = r_0; at_1 = r_1; at_2 = r_2 }))
  if p.liquidity == 0 || next_timestamp == curr_timestamp then ok p.reward_infos else rounds

unfoldable pub next_pool_liquidity : ElysiumPool → ℤ → ℤ → ℤ → Result ℕ
unfolding add_liquidity_delta
next_pool_liquidity p tick_upper_index tick_lower_index liquidity_delta =
    if ltb_ℤ p.tick_current_index tick_upper_index && leb_ℤ tick_lower_index p.tick_current_index
    then add_liquidity_delta p.liquidity liquidity_delta
    else ok p.liquidity
