-- ===== src/Instructions/Lifetime/Rewards.antt =====
-- Which rewards, and which liquidity, the instructions write to a pool.
use elysium_dex.Base.{
  ℕ, ◌≡◌, refl, ap, ◌∙◌, arith, Bool, true, false, ◌&&◌, ◌==◌, Option, none, some, Triple,
}
use elysium_dex.Base.Int.{ℤ, pos, eqb_ℤ}
use elysium_dex.Errors.{Result, ok, err, panic, bind_returns, fail_if, liquidity_zero, ◌>>◌}
use elysium_dex.State.RewardInfo.{ElysiumPoolRewardInfo}
use elysium_dex.State.Pool.{ElysiumPool, update_rewards_and_liquidity}
use elysium_dex.State.Position.{Position, PositionUpdate}
use elysium_dex.State.Tick.{Tick}
use elysium_dex.State.TickArray.{get_tick}
use elysium_dex.Util.SwapTickSequence.{SwapTickSequence}
use elysium_dex.Manager.Pool.{next_pool_reward_infos, next_pool_liquidity}
use elysium_dex.Manager.Tick.{
  next_tick_modify_liquidity_update, next_fee_growths_inside, next_reward_growths_inside,
}
use elysium_dex.Manager.Position.{next_position_modify_liquidity_update}
use elysium_dex.Manager.Liquidity.{
  ModifyLiquidityUpdate, TickArrayPair, lower_array, upper_array, LiquidityAccounts,
  calculate_from_ticks, calculate_modify_liquidity, calculate_fee_and_reward_growths,
  sync_modify_liquidity_values,
}
use elysium_dex.Manager.Swap.{
  PostSwapUpdate, SwapInput, SwapState, swap, run_swap, check_swap, finish_loop, finish_swap,
  swap_input,
}

pub ok_injective : {A : Type 0} {a b : A} → ok a ≡ ok b → a ≡ b
ok_injective e = cc

finish_loop-next_reward_infos :
    (i : SwapInput) (amount : ℕ) (o : Option (Result SwapState)) (u : PostSwapUpdate)
    (arrays : SwapTickSequence)
    → finish_loop i amount o ≡ some (ok (u, arrays))
    → i.next_reward_infos ≡ u.next_reward_infos
unfolding finish_loop finish_swap
finish_loop-next_reward_infos i amount none u arrays e = grind arith
finish_loop-next_reward_infos i amount (some (err code)) u arrays e = grind arith
finish_loop-next_reward_infos i amount (some panic) u arrays e = grind arith
finish_loop-next_reward_infos i amount (some (ok s)) u arrays e =
    let same : finish_swap i amount s ≡ u = cc in ap (λ z. z.next_reward_infos) same

-- The rewards that a swap writes are those of `next_pool_reward_infos`.
pub swap-next_pool_reward_infos :
    (fuel : ℕ) (p : ElysiumPool) (arrays arrays' : SwapTickSequence) (amount limit : ℕ)
    (is_input a_to_b : Bool) (timestamp : ℕ) (u : PostSwapUpdate)
    → swap fuel p arrays amount limit is_input a_to_b timestamp ≡ some (ok (u, arrays'))
    → next_pool_reward_infos p timestamp ≡ ok u.next_reward_infos
unfolding swap run_swap
swap-next_pool_reward_infos fuel p arrays arrays' amount limit is_input a_to_b timestamp u h =
    by_checks (check_swap p amount limit a_to_b >> next_pool_reward_infos p timestamp) refl h
  where
    by_checks :
        (r : Result (Triple ElysiumPoolRewardInfo))
        → (check_swap p amount limit a_to_b >> next_pool_reward_infos p timestamp) ≡ r
        → run_swap fuel p arrays amount limit is_input a_to_b r ≡ some (ok (u, arrays'))
        → next_pool_reward_infos p timestamp ≡ ok u.next_reward_infos
    by_checks (err code) q e = grind arith
    by_checks panic q e = grind arith
    by_checks (ok rewards) q e =
        let (v, w, x) = bind_returns (check_swap p amount limit a_to_b) _ q in
        x
        ∙ ap ok (
            finish_loop-next_reward_infos (swap_input p limit is_input a_to_b rewards) amount _ u
              arrays' e)

calculate_from_ticks-next_pool_reward_infos :
    (p : ElysiumPool) (position : Position) (lower upper : Tick) (i j delta : ℤ) (t : ℕ)
    (u : ModifyLiquidityUpdate)
    → calculate_from_ticks p position lower upper i j delta t ≡ ok u
    → next_pool_reward_infos p t ≡ ok u.reward_infos
unfolding calculate_from_ticks
calculate_from_ticks-next_pool_reward_infos p position lower upper i j delta t u e =
    let (v, w, e1) =
      bind_returns (fail_if (eqb_ℤ delta (pos 0) && position.liquidity == 0) liquidity_zero) _ e in
    let (rewards, q, e2) = bind_returns (next_pool_reward_infos p t) _ e1 in
    let (liquidity, w1, e3) =
      bind_returns (next_pool_liquidity p position.tick_upper_index position.tick_lower_index delta)
        _ e2 in
    let (x, w2, e4) =
      bind_returns
        (next_tick_modify_liquidity_update lower i p.tick_current_index p.fee_growth_global_a
          p.fee_growth_global_b rewards delta false)
        _ e3 in
    let (y, w3, e5) =
      bind_returns
        (next_tick_modify_liquidity_update upper j p.tick_current_index p.fee_growth_global_a
          p.fee_growth_global_b rewards delta true)
        _ e4 in
    let inside =
      next_fee_growths_inside p.tick_current_index lower i upper j p.fee_growth_global_a
        p.fee_growth_global_b in
    let (z, w4, e6) =
      bind_returns
        (next_position_modify_liquidity_update position delta inside.0 inside.1
          (next_reward_growths_inside p.tick_current_index lower i upper j rewards))
        _ e5 in
    q ∙ ap (λ z. ok z.reward_infos) (ok_injective e6)

pub calculate_modify_liquidity-next_pool_reward_infos :
    (p : ElysiumPool) (position : Position) (arrays : TickArrayPair) (delta : ℤ) (t : ℕ)
    (u : ModifyLiquidityUpdate)
    → calculate_modify_liquidity p position arrays delta t ≡ ok u
    → next_pool_reward_infos p t ≡ ok u.reward_infos
unfolding calculate_modify_liquidity
calculate_modify_liquidity-next_pool_reward_infos p position arrays delta t u e =
    let (lower, g, e1) =
      bind_returns (get_tick (lower_array arrays) position.tick_lower_index p.tick_spacing) _ e in
    let (upper, h, e2) =
      bind_returns (get_tick (upper_array arrays) position.tick_upper_index p.tick_spacing) _ e1 in
    calculate_from_ticks-next_pool_reward_infos p position lower upper _ _ delta t u e2

pub calculate_growths-next_pool_reward_infos :
    (p : ElysiumPool) (position : Position) (arrays : TickArrayPair) (t : ℕ)
    (result : PositionUpdate × Triple ElysiumPoolRewardInfo)
    → calculate_fee_and_reward_growths p position arrays t ≡ ok result
    → next_pool_reward_infos p t ≡ ok result.1
unfolding calculate_fee_and_reward_growths
calculate_growths-next_pool_reward_infos p position arrays t result e =
    let (lower, g, e1) =
      bind_returns (get_tick (lower_array arrays) position.tick_lower_index p.tick_spacing) _ e in
    let (upper, h, e2) =
      bind_returns (get_tick (upper_array arrays) position.tick_upper_index p.tick_spacing) _ e1 in
    let (u, c, e3) =
      bind_returns
        (calculate_from_ticks p position lower upper position.tick_lower_index
          position.tick_upper_index (pos 0) t)
        _ e2 in
    calculate_from_ticks-next_pool_reward_infos p position lower upper _ _ (pos 0) t u c
    ∙ ap (λ z. ok z.1) (ok_injective e3)

pub sync_modify_liquidity_values-pool :
    (acc acc' : LiquidityAccounts) (u : ModifyLiquidityUpdate) (t : ℕ)
    → sync_modify_liquidity_values acc u t ≡ ok acc'
    → update_rewards_and_liquidity acc.pool u.reward_infos u.pool_liquidity t ≡ acc'.pool
unfolding sync_modify_liquidity_values
sync_modify_liquidity_values-pool acc acc' u t e = ground arith
