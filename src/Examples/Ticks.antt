-- ===== src/Examples/Ticks.antt =====
-- The growths of two ranges and a crossing, at concrete ticks.
use elysium_dex.Base.{ℕ, ◌<◌, true, false, ◌≡◌, refl, arith, Triple}
use elysium_dex.Base.Int.{pos, negsuc, ◌+ℤ◌}
use elysium_dex.Base.Words.{add_u128, u128_mod}
use elysium_dex.Errors.{ok}
use elysium_dex.State.Tick.{Tick, TickUpdate, default_tick, update, update_from}
use elysium_dex.State.RewardInfo.{ElysiumPoolRewardInfo, new_reward_info, initialized}
use elysium_dex.Math.Liquidity.{add_liquidity_delta}
use elysium_dex.Manager.Tick.{
  cross_reward, next_tick_cross_update, next_tick_modify_liquidity_update, next_fee_growths_inside,
  outside_growths, next_liquidity_net,
}
use elysium_dex.Manager.Tick.Crossing.{
  GrowthsFit, RewardsFit, Crosses, next_tick_cross_update-Crosses,
}
use elysium_dex.Manager.Tick.Modify.{IsConsistent, modify-IsConsistent, modify_undo}
use elysium_dex.Manager.Tick.Ranges.{inside-add, inside-grow, inside-cross_upper}

abbrev tick_with : ℕ → ℕ → Tick
tick_with a b = record default_tick {
  initialized = true;
  liquidity_net = pos 500;
  liquidity_gross = 500;
  fee_growth_outside_a = a;
  fee_growth_outside_b = b;
}

tick_with-GrowthsFit : (a b : ℕ) → a < u128_mod → b < u128_mod → GrowthsFit (tick_with a b)
tick_with-GrowthsFit a b ha hb = record {
  fee_a = ha;
  fee_b = hb;
  reward_0 = omega arith;
  reward_1 = omega arith;
  reward_2 = omega arith;
}

abbrev rewards : Triple ElysiumPoolRewardInfo
rewards = record {
  at_0 = record (new_reward_info 9) { mint = 5; growth_global_x64 = 777 };
  at_1 = new_reward_info 9;
  at_2 = new_reward_info 9;
}

inside-add_example :
    (let (left_a, left_b) =
        next_fee_growths_inside
          (pos 70)
          (tick_with 100 5)
          (pos 0)
          (tick_with 40 0)
          (pos 64)
          1000
          50 in
      let (right_a, right_b) =
        next_fee_growths_inside
          (pos 70)
          (tick_with 40 0)
          (pos 64)
          (tick_with 7 8)
          (pos 128)
          1000
          50 in
      (add_u128 left_a right_a, add_u128 left_b right_b))
    ≡ next_fee_growths_inside (pos 70) (tick_with 100 5) (pos 0) (tick_with 7 8) (pos 128) 1000 50
inside-add_example =
    inside-add (pos 70) (tick_with 100 5) (tick_with 40 0) (tick_with 7 8) (pos 0) (pos 64)
      (pos 128) 1000 50 refl (tick_with-GrowthsFit 100 5 (omega arith) (omega arith))
      (tick_with-GrowthsFit 40 0 (omega arith) (omega arith))
      (tick_with-GrowthsFit 7 8 (omega arith) (omega arith)) (omega arith) (omega arith)

inside-grow_example :
    next_fee_growths_inside
      (pos 70)
      (tick_with 100 5)
      (pos 0)
      (tick_with 7 8)
      (pos 128)
      (add_u128 1000 30)
      (add_u128 50 2)
    ≡ (let (a, b) =
          next_fee_growths_inside
            (pos 70)
            (tick_with 100 5)
            (pos 0)
            (tick_with 7 8)
            (pos 128)
            1000
            50 in
        (add_u128 a 30, add_u128 b 2))
inside-grow_example =
    inside-grow (pos 70) (tick_with 100 5) (tick_with 7 8) (pos 0) (pos 128) 1000 50 30 2 refl refl
      (omega arith) (tick_with-GrowthsFit 100 5 (omega arith) (omega arith))
      (tick_with-GrowthsFit 7 8 (omega arith) (omega arith)) (omega arith) (omega arith)
      (omega arith) (omega arith)

abbrev upper_crossed : TickUpdate
upper_crossed = record (update_from (tick_with 7 8)) {
  fee_growth_outside_a = 993;
  fee_growth_outside_b = 42;
  reward_growths_outside = record { at_0 = 777; at_1 = 0; at_2 = 0 };
}

inside-cross_upper_example :
    next_fee_growths_inside
      (pos 130)
      (tick_with 100 5)
      (pos 0)
      (update (tick_with 7 8) upper_crossed)
      (pos 128)
      1000
      50
    ≡ next_fee_growths_inside (pos 127) (tick_with 100 5) (pos 0) (tick_with 7 8) (pos 128) 1000 50
unfolding next_tick_cross_update update_from cross_reward initialized new_reward_info
inside-cross_upper_example =
    inside-cross_upper (pos 127) (pos 130) (tick_with 100 5) (tick_with 7 8) (pos 0) (pos 128) 1000
      50 rewards upper_crossed (tick_with-GrowthsFit 7 8 (omega arith) (omega arith)) (omega arith)
      (omega arith) refl (omega arith) (omega arith) (omega arith) refl

rewards-RewardsFit : RewardsFit rewards
unfolding new_reward_info
rewards-RewardsFit = record {
  growth_0 = omega arith;
  growth_1 = omega arith;
  growth_2 = omega arith;
}

next_tick_cross_update-Crosses_example :
    (u : TickUpdate) × (next_tick_cross_update (tick_with 7 8) 1000 50 rewards ≡ ok u)
    × Crosses (tick_with 7 8) 1000 50 rewards u
    × (next_tick_cross_update (update (tick_with 7 8) u) 1000 50 rewards
        ≡ ok (update_from (tick_with 7 8)))
next_tick_cross_update-Crosses_example =
    next_tick_cross_update-Crosses (tick_with 7 8) 1000 50 rewards
      (tick_with-GrowthsFit 7 8 (omega arith) (omega arith)) rewards-RewardsFit (omega arith)
      (omega arith)

-- 200 units leave the tick, which keeps 300.
abbrev reduced : TickUpdate
reduced = record (update_from (tick_with 7 8)) { liquidity_net = pos 300; liquidity_gross = 300 }

modify-IsConsistent_example : IsConsistent (update (tick_with 7 8) reduced)
unfolding next_tick_modify_liquidity_update add_liquidity_delta next_liquidity_net update_from ◌+ℤ◌
    outside_growths
modify-IsConsistent_example =
    modify-IsConsistent (tick_with 7 8) (pos 128) (pos 70) 1000 50 rewards (negsuc 199) false
      reduced refl refl

modify_undo_example :
    next_tick_modify_liquidity_update
      (update (tick_with 7 8) reduced)
      (pos 128)
      (pos 200)
      2000
      60
      rewards
      (pos 200)
      false
    ≡ ok (update_from (tick_with 7 8))
unfolding next_tick_modify_liquidity_update add_liquidity_delta next_liquidity_net update_from ◌+ℤ◌
    outside_growths
modify_undo_example =
    modify_undo (tick_with 7 8) (pos 128) (pos 70) (pos 200) 1000 50 2000 60 rewards rewards
      (negsuc 199) false reduced refl (omega arith) (omega arith) (omega arith) (grind arith)
      (omega arith) (omega arith) refl (omega arith)
