-- ===== src/Instructions/Lifetime/Simulation.antt =====
-- The longer instructions on a pool are steps of Manager/Pool/Lifetime.
use elysium_dex.Base.{ℕ, ◌≡◌, ap, subst, ◌∙◌, Bool, ◌&&◌, ltb, ◌==◌, entry?}
use elysium_dex.Base.Int.{ℤ}
use elysium_dex.Errors.{unwrap, fail_if, reward_vault_amount_insufficient}
use elysium_dex.Math.Bit.{checked_mul_shift_right}
use elysium_dex.State.Pool.{ElysiumPool, update_after_swap}
use elysium_dex.Util.Authority.{Signer, to_timestamp_u64}
use elysium_dex.Manager.Pool.{next_pool_reward_infos}
use elysium_dex.Manager.Pool.Lifetime as Life
use elysium_dex.Manager.Pool.Lifetime.{Step, Steps, start, then_step, IsValid, Stays}
use elysium_dex.Manager.Liquidity.{
  LiquidityAccounts, calculate_modify_liquidity, calculate_fee_and_reward_growths,
  calculate_liquidity_token_deltas, sync_modify_liquidity_values,
}
use elysium_dex.Instructions.Outcome.{
  done, lift, require, bind_finishes, done_injective, lift_returns,
}
use elysium_dex.Instructions.Runtime.{Runtime, transfer_from_vault_to_owner}
use elysium_dex.Instructions.Trade.{
  PoolAccounts, SwapArguments, TradeResult, Calculated, load_arrays, calculate_swap, perform_swap,
  update_and_swap_pool, settle_swap, swap_handler,
}
use elysium_dex.Instructions.Trade.Exchange.{swap_handler-inverts, in_rounds_finishes}
use elysium_dex.Instructions.Liquidity.{
  ModifyLiquidity, arrays_of_pool, change_liquidity, increase_liquidity_handler,
  decrease_liquidity_handler, update_fees_and_rewards_handler,
}
use elysium_dex.Instructions.Collect.{
  CollectProtocolFees, collect_protocol_fees_constraints, collect_protocol_fees_handler,
}
use elysium_dex.Instructions.Admin.{set_reward_emissions_handler, is_signed_by, day_in_seconds}
use elysium_dex.Instructions.Liquidity.Runs.{
  increase_liquidity_handler-inverts, decrease_liquidity_handler-inverts,
}
use elysium_dex.Instructions.Lifetime.Rewards.{
  swap-next_pool_reward_infos, calculate_modify_liquidity-next_pool_reward_infos,
  calculate_growths-next_pool_reward_infos, sync_modify_liquidity_values-pool,
}

change_liquidity-Step :
    (acc : LiquidityAccounts) (delta : ℤ) (t : ℕ) (result : LiquidityAccounts × (ℕ × ℕ))
    → change_liquidity acc delta t ≡ done result
    → Step acc.pool result.0.pool
unfolding change_liquidity
change_liquidity-Step acc delta t result e =
    let (u, p, e1) =
      bind_finishes (lift (calculate_modify_liquidity acc.pool acc.position acc.arrays delta t)) _
        e in
    let (acc', q, e2) = bind_finishes (lift (sync_modify_liquidity_values acc u t)) _ e1 in
    let (deltas, r, e3) =
      bind_finishes
        (lift (
          calculate_liquidity_token_deltas acc'.pool.tick_current_index acc'.pool.sqrt_price
            acc'.position delta))
        _ e2 in
    let rewards =
      calculate_modify_liquidity-next_pool_reward_infos acc.pool acc.position acc.arrays delta t u
        (lift_returns _ p) in
    subst (Step acc.pool)
      (sync_modify_liquidity_values-pool acc acc' u t (lift_returns _ q)
        ∙ ap (λ z. z.0.pool) (done_injective e3))
      (Life.modify_liquidity acc.pool t u.pool_liquidity u.reward_infos rewards)

pub update_fees_and_rewards-Step :
    (pool_key : ℕ) (acc acc' : LiquidityAccounts) (time : ℤ)
    → update_fees_and_rewards_handler pool_key acc time ≡ done acc'
    → Step acc.pool acc'.pool
unfolding update_fees_and_rewards_handler
update_fees_and_rewards-Step pool_key acc acc' time e =
    let (v, a, e1) =
      bind_finishes (require (acc.position.pool == pool_key && arrays_of_pool acc.arrays pool_key))
        _ e in
    let (t, b, e2) = bind_finishes (lift (to_timestamp_u64 time)) _ e1 in
    let (u, c, e3) =
      bind_finishes (lift (calculate_fee_and_reward_growths acc.pool acc.position acc.arrays t)) _
        e2 in
    subst (Step acc.pool) (ap (λ z. z.pool) (done_injective e3)) (
      Life.advance acc.pool t u.1 (
        calculate_growths-next_pool_reward_infos acc.pool acc.position acc.arrays t u
          (lift_returns _ c)))

module _ {Bank : Type 0} (runtime : Runtime Bank) where
  settle_swap-pool :
      (bank : Bank) (acc : PoolAccounts) (s : Signer) (c : Calculated) (a_to_b : Bool) (t : ℕ)
      (result : TradeResult Bank)
      → settle_swap runtime bank acc s c a_to_b t ≡ done result
      → update_after_swap acc.pool.content c.0.next_liquidity c.0.next_tick_index
          c.0.next_sqrt_price c.0.next_fee_growth_global c.0.next_reward_infos c.0.next_protocol_fee
          a_to_b t
        ≡ result.1.pool
  unfolding settle_swap update_and_swap_pool
  settle_swap-pool bank acc s c a_to_b t result h =
      let (settled, p, q) =
        bind_finishes (update_and_swap_pool runtime bank acc s c.0 a_to_b t) _ h in
      let (bank', r, v) =
        bind_finishes (perform_swap runtime bank acc s c.0.amount_a c.0.amount_b a_to_b) _ p in
      ap (λ z. z.1) (done_injective v) ∙ ap (λ z. z.1.pool) (done_injective q)

  pub swap-Step :
      (fuel : ℕ) (bank : Bank) (acc : PoolAccounts) (s : Signer) (x : SwapArguments) (time : ℤ)
      (result : TradeResult Bank)
      → swap_handler runtime fuel bank acc s x time ≡ done result
      → Step acc.pool.content result.1.pool
  unfolding calculate_swap
  swap-Step fuel bank acc s x time result e =
      let (c, t, (allowed, clock, calculated, checked, settled)) =
        swap_handler-inverts runtime fuel bank acc s x time result e in
      let rewards =
        swap-next_pool_reward_infos fuel acc.pool.content (load_arrays acc.tick_arrays) c.1 x.amount
          x.sqrt_price_limit x.amount_specified_is_input x.a_to_b t c.0
          (in_rounds_finishes _ calculated) in
      subst (Step acc.pool.content) (settle_swap-pool bank acc s c x.a_to_b t result settled)
        (Life.trade acc.pool.content _ _ _ _ _ _ x.a_to_b t rewards)

  pub collect_protocol_fees-Step :
      (bank : Bank) (c : CollectProtocolFees) (result : Bank × ElysiumPool)
      → collect_protocol_fees_handler runtime bank c ≡ done result
      → Step c.pool.content result.1
  unfolding collect_protocol_fees_handler
  collect_protocol_fees-Step bank c result e =
      let (v, a, e1) =
        bind_finishes (require (collect_protocol_fees_constraints runtime bank c)) _ e in
      let (paid_a, d, e2) =
        bind_finishes
          (transfer_from_vault_to_owner runtime bank c.pool.key c.token_vault_a
            c.token_destination_a c.pool.content.protocol_fee_owed_a)
          _ e1 in
      let (paid_b, f, e3) =
        bind_finishes
          (transfer_from_vault_to_owner runtime paid_a c.pool.key c.token_vault_b
            c.token_destination_b c.pool.content.protocol_fee_owed_b)
          _ e2 in
      subst (Step c.pool.content) (ap (λ z. z.1) (done_injective e3))
        (Life.collect_protocol_fees c.pool.content)

  pub increase_liquidity-Step :
      (bank : Bank) (c : ModifyLiquidity) (amount max_a max_b : ℕ) (time : ℤ)
      (result : Bank × LiquidityAccounts)
      → increase_liquidity_handler runtime bank c amount max_a max_b time ≡ done result
      → Step c.accounts.pool result.1.pool
  increase_liquidity-Step bank c amount max_a max_b time result e =
      let (delta, t, change, middle, (a, b, d, changed, f, g, h, k, same)) =
        increase_liquidity_handler-inverts runtime bank c amount max_a max_b time result e in
      subst (Step c.accounts.pool) (ap (λ z. z.pool) same)
        (change_liquidity-Step c.accounts delta t change changed)

  pub decrease_liquidity-Step :
      (bank : Bank) (c : ModifyLiquidity) (amount min_a min_b : ℕ) (time : ℤ)
      (result : Bank × LiquidityAccounts)
      → decrease_liquidity_handler runtime bank c amount min_a min_b time ≡ done result
      → Step c.accounts.pool result.1.pool
  decrease_liquidity-Step bank c amount min_a min_b time result e =
      let (delta, t, change, middle, (a, b, d, changed, f, g, h, k, same)) =
        decrease_liquidity_handler-inverts runtime bank c amount min_a min_b time result e in
      subst (Step c.accounts.pool) (ap (λ z. z.pool) same)
        (change_liquidity-Step c.accounts delta t change changed)

  pub set_reward_emissions-Step :
      (bank : Bank) (p p' : ElysiumPool) (s : Signer) (vault index emissions : ℕ) (time : ℤ)
      → set_reward_emissions_handler runtime bank p s vault index emissions time ≡ done p'
      → Step p p'
  unfolding set_reward_emissions_handler
  set_reward_emissions-Step bank p p' s vault index emissions time e =
      let (reward, a1, e1) = bind_finishes (lift (unwrap (entry? p.reward_infos index))) _ e in
      let (v2, a2, e2) =
        bind_finishes (require (is_signed_by s reward.authority && vault == reward.vault)) _ e1 in
      let (per_day, a3, e3) =
        bind_finishes (lift (checked_mul_shift_right day_in_seconds emissions)) _ e2 in
      let (v4, a4, e4) =
        bind_finishes
          (lift (
            fail_if (ltb (runtime.token_account bank vault).amount per_day)
              reward_vault_amount_insufficient))
          _ e3 in
      let (t, a5, e5) = bind_finishes (lift (to_timestamp_u64 time)) _ e4 in
      let (rewards, a6, e6) = bind_finishes (lift (next_pool_reward_infos p t)) _ e5 in
      Life.set_emissions p p' index t emissions rewards (lift_returns _ a6) (lift_returns _ e6)
