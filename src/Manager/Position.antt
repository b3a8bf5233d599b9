-- ===== src/Manager/Position.antt =====
-- programs/elysium/src/manager/position_manager.rs: what a position earns, and its new liquidity.
use elysium_dex.Base.{ℕ, Triple, map_2}
use elysium_dex.Base.Int.{ℤ}
use elysium_dex.Base.Words.{add_u64, sub_u128}
use elysium_dex.Errors.{Result, ok, err, panic, ◌>>=◌}
use elysium_dex.Math.Bit.{checked_mul_shift_right}
use elysium_dex.Math.Liquidity.{add_liquidity_delta}
use elysium_dex.State.Position.{Position, PositionRewardInfo, PositionUpdate}

-- `checked_mul_shift_right(liquidity, growth).unwrap_or(0)`
unfoldable pub earned : ℕ → ℕ → ℕ
unfolding checked_mul_shift_right
earned liquidity growth = elim (checked_mul_shift_right liquidity growth) [
  | ok n ↦ n
  | err e ↦ 0
  | panic ↦ 0
]

-- One round of the loop over the rewards.
unfoldable pub next_position_reward : ℕ → ℕ → PositionRewardInfo → PositionRewardInfo
unfolding earned
next_position_reward liquidity growth_inside r = record {
  growth_inside_checkpoint = growth_inside;
  amount_owed =
      add_u64 r.amount_owed (earned liquidity (sub_u128 growth_inside r.growth_inside_checkpoint));
}

unfoldable pub next_position_modify_liquidity_update :
    Position → ℤ → ℕ → ℕ → Triple ℕ → Result PositionUpdate
unfolding earned next_position_reward add_liquidity_delta
next_position_modify_liquidity_update p liquidity_delta inside_a inside_b reward_growths_inside = do
  let fee_delta_a = earned p.liquidity (sub_u128 inside_a p.fee_growth_checkpoint_a)
  let fee_delta_b = earned p.liquidity (sub_u128 inside_b p.fee_growth_checkpoint_b)
  liquidity ← add_liquidity_delta p.liquidity liquidity_delta
  ok (record {
    liquidity = liquidity;
    fee_growth_checkpoint_a = inside_a;
    fee_owed_a = add_u64 p.fee_owed_a fee_delta_a;
    fee_growth_checkpoint_b = inside_b;
    fee_owed_b = add_u64 p.fee_owed_b fee_delta_b;
    reward_infos = map_2 (next_position_reward p.liquidity) reward_growths_inside p.reward_infos;
  })
