-- ===== src/State/Position.antt =====
-- programs/elysium/src/state/position.rs: a position of liquidity between two ticks.
use elysium_dex.Base.{ℕ, Bool, not, ◌&&◌, Triple, entry?, put, ◌==◌}
use elysium_dex.Base.Int.{ℤ, leb_ℤ}
use elysium_dex.Errors.{Result, ok, fail_if, unwrap, ◌>>=◌, ◌>>◌, invalid_tick_index}
use elysium_dex.State.Tick.{check_is_usable_tick}

pub record PositionRewardInfo : Type 0 where
  pub growth_inside_checkpoint : ℕ
  pub amount_owed : ℕ

pub record Position : Type 0 where
  pub pool : ℕ
  pub position_mint : ℕ
  pub liquidity : ℕ
  pub tick_lower_index : ℤ
  pub tick_upper_index : ℤ
  pub fee_growth_checkpoint_a : ℕ
  pub fee_owed_a : ℕ
  pub fee_growth_checkpoint_b : ℕ
  pub fee_owed_b : ℕ
  pub reward_infos : Triple PositionRewardInfo

pub record PositionUpdate : Type 0 where
  pub liquidity : ℕ
  pub fee_growth_checkpoint_a : ℕ
  pub fee_owed_a : ℕ
  pub fee_growth_checkpoint_b : ℕ
  pub fee_owed_b : ℕ
  pub reward_infos : Triple PositionRewardInfo

unfoldable pub is_position_empty : Position → Bool
is_position_empty p =
    let fees_not_owed = p.fee_owed_a == 0 && p.fee_owed_b == 0 in
    let rewards_not_owed =
      p.reward_infos.at_0.amount_owed == 0
      && p.reward_infos.at_1.amount_owed == 0
      && p.reward_infos.at_2.amount_owed == 0 in
    p.liquidity == 0 && fees_not_owed && rewards_not_owed

unfoldable pub update : Position → PositionUpdate → Position
update p u = record p {
  liquidity = u.liquidity;
  fee_growth_checkpoint_a = u.fee_growth_checkpoint_a;
  fee_growth_checkpoint_b = u.fee_growth_checkpoint_b;
  fee_owed_a = u.fee_owed_a;
  fee_owed_b = u.fee_owed_b;
  reward_infos = u.reward_infos;
}

-- The guards of `open_position`. An operand of `||` is evaluated only where those before it fail.
unfoldable pub check_ticks : ℤ → ℤ → ℕ → Result (Unit {0})
unfolding check_is_usable_tick
check_ticks lower upper tick_spacing = do
  usable_lower ← check_is_usable_tick lower tick_spacing
  fail_if (not usable_lower) invalid_tick_index
  usable_upper ← check_is_usable_tick upper tick_spacing
  fail_if (not usable_upper) invalid_tick_index
  fail_if (leb_ℤ upper lower) invalid_tick_index

-- With the pool's key and tick spacing.
unfoldable pub open_position : Position → ℕ → ℕ → ℕ → ℤ → ℤ → Result Position
unfolding check_ticks
open_position p pool_key tick_spacing position_mint lower upper = do
  check_ticks lower upper tick_spacing
  ok (record p {
    pool = pool_key;
    position_mint = position_mint;
    tick_lower_index = lower;
    tick_upper_index = upper;
  })

unfoldable pub reset_fees_owed : Position → Position
reset_fees_owed p = record p { fee_owed_a = 0; fee_owed_b = 0 }

unfoldable pub update_reward_owed : Position → ℕ → ℕ → Result Position
update_reward_owed p index amount_owed = do
  r ← unwrap (entry? p.reward_infos index)
  ok (record p { reward_infos = put p.reward_infos index (record r { amount_owed = amount_owed }) })
