-- ===== src/Manager/Tick.antt =====
-- programs/elysium/src/manager/tick_manager.rs: ticks that are crossed or change their liquidity,
-- and the growth of fees and rewards between two ticks.
pub mod Crossing
pub mod Modify
pub mod Ranges
use elysium_dex.Base.{Option, ℕ, Bool, true, not, Triple, fill, map_2, map_3, ◌==◌, if◌then◌else◌}
use elysium_dex.Base.Int.{ℤ, pos, leb_ℤ, ltb_ℤ, eqb_ℤ}
use elysium_dex.Base.Words.{sub_u128, checked_add_i128, checked_sub_i128}
use elysium_dex.Errors.{Result, ok, ok_or, ◌>>=◌, liquidity_net_error}
use elysium_dex.Math.Liquidity.{add_liquidity_delta}
use elysium_dex.State.RewardInfo.{ElysiumPoolRewardInfo, initialized, to_reward_growths}
use elysium_dex.State.Tick.{Tick, TickUpdate, default_tick_update, update_from}

-- One round of the loop of `next_tick_cross_update`.
unfoldable pub cross_reward : ElysiumPoolRewardInfo → ℕ → ℕ
unfolding initialized
cross_reward r outside = if initialized r then sub_u128 r.growth_global_x64 outside else outside

unfoldable pub next_tick_cross_update :
    Tick → ℕ → ℕ → Triple ElysiumPoolRewardInfo → Result TickUpdate
unfolding update_from cross_reward
next_tick_cross_update tick fee_growth_global_a fee_growth_global_b reward_infos =
    ok (record (update_from tick) {
      fee_growth_outside_a = sub_u128 fee_growth_global_a tick.fee_growth_outside_a;
      fee_growth_outside_b = sub_u128 fee_growth_global_b tick.fee_growth_outside_b;
      reward_growths_outside = map_2 cross_reward reward_infos tick.reward_growths_outside;
    })

-- The growths outside a tick whose liquidity changes.
unfoldable pub outside_growths :
    Tick → ℤ → ℤ → ℕ → ℕ → Triple ElysiumPoolRewardInfo → ℕ × ℕ × Triple ℕ
unfolding to_reward_growths
outside_growths tick tick_index tick_current_index global_a global_b reward_infos =
    if tick.liquidity_gross == 0
    then (if leb_ℤ tick_index tick_current_index
        then (global_a, global_b, to_reward_growths reward_infos)
        else (0, 0, fill 0))
    else (tick.fee_growth_outside_a, tick.fee_growth_outside_b, tick.reward_growths_outside)

-- The upper tick of a range counts a change with the opposite sign.
unfoldable pub next_liquidity_net : Bool → ℤ → ℤ → Option ℤ
next_liquidity_net is_upper_tick liquidity_net liquidity_delta =
    if is_upper_tick
    then checked_sub_i128 liquidity_net liquidity_delta
    else checked_add_i128 liquidity_net liquidity_delta

unfoldable pub next_tick_modify_liquidity_update :
    Tick → ℤ → ℤ → ℕ → ℕ → Triple ElysiumPoolRewardInfo → ℤ → Bool → Result TickUpdate
next_tick_modify_liquidity_update tick tick_index tick_current_index global_a global_b reward_infos
      liquidity_delta is_upper_tick =
    if eqb_ℤ liquidity_delta (pos 0) then ok (update_from tick) else (do
      liquidity_gross ← add_liquidity_delta tick.liquidity_gross liquidity_delta
      let (outside_a, outside_b, reward_growths_outside) =
          outside_growths tick tick_index tick_current_index global_a global_b reward_infos
      let rest = (do
        liquidity_net ←
            ok_or (next_liquidity_net is_upper_tick tick.liquidity_net liquidity_delta)
              liquidity_net_error
        ok (record {
          initialized = true;
          liquidity_net = liquidity_net;
          liquidity_gross = liquidity_gross;
          fee_growth_outside_a = outside_a;
          fee_growth_outside_b = outside_b;
          reward_growths_outside = reward_growths_outside;
        }))
      if liquidity_gross == 0 then ok default_tick_update else rest)

-- The growth below the lower tick: its global value where the tick is not initialised.
unfoldable pub growth_below : Bool → Bool → ℕ → ℕ → ℕ
growth_below is_initialized current_below global outside =
    if not is_initialized
    then global
    else if current_below
    then sub_u128 global outside
    else outside

-- The growth above the upper tick: none where the tick is not initialised.
unfoldable pub growth_above : Bool → Bool → ℕ → ℕ → ℕ
growth_above is_initialized current_below global outside =
    if not is_initialized then 0 else if current_below then outside else sub_u128 global outside

unfoldable pub growth_between : Tick → Bool → Tick → Bool → ℕ → ℕ → ℕ → ℕ
unfolding growth_below growth_above
growth_between lower below_lower upper below_upper global outside_lower outside_upper =
    sub_u128 (sub_u128 global (growth_below lower.initialized below_lower global outside_lower))
      (growth_above upper.initialized below_upper global outside_upper)

unfoldable pub next_fee_growths_inside : ℤ → Tick → ℤ → Tick → ℤ → ℕ → ℕ → ℕ × ℕ
unfolding growth_between
next_fee_growths_inside current lower lower_index upper upper_index global_a global_b =
    let below_lower = ltb_ℤ current lower_index in
    let below_upper = ltb_ℤ current upper_index in
    (
      growth_between lower below_lower upper below_upper global_a lower.fee_growth_outside_a
          upper.fee_growth_outside_a,
      growth_between lower below_lower upper below_upper global_b lower.fee_growth_outside_b
          upper.fee_growth_outside_b,
    )

-- One round of the loop of `next_reward_growths_inside`.
unfoldable pub reward_growth_inside : Tick → Bool → Tick → Bool → ElysiumPoolRewardInfo → ℕ → ℕ → ℕ
unfolding growth_between initialized
reward_growth_inside lower below_lower upper below_upper r outside_lower outside_upper =
    if initialized r
    then growth_between lower below_lower upper below_upper r.growth_global_x64 outside_lower
        outside_upper
    else 0

unfoldable pub next_reward_growths_inside :
    ℤ → Tick → ℤ → Tick → ℤ → Triple ElysiumPoolRewardInfo → Triple ℕ
unfolding reward_growth_inside
next_reward_growths_inside current lower lower_index upper upper_index reward_infos =
    map_3 (reward_growth_inside lower (ltb_ℤ current lower_index) upper (ltb_ℤ current upper_index))
      reward_infos lower.reward_growths_outside upper.reward_growths_outside
