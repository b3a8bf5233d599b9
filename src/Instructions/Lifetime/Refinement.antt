-- ===== src/Instructions/Lifetime/Refinement.antt =====
-- The instructions on a pool refine Manager/Pool/Lifetime.
use elysium_dex.Base.{ℕ, ◌≡◌, entry?}
use elysium_dex.Errors.{unwrap}
use elysium_dex.State.Pool.{ElysiumPool}
use elysium_dex.Manager.Pool.Lifetime as Life
use elysium_dex.Manager.Pool.Lifetime.{
  Step, Steps, start, then_step, IsValid, Stays, Steps-Stays, initialize-Steps-IsValid,
}
use elysium_dex.Instructions.Outcome.{done, lift, bind_finishes, guarded_call_returns}
use elysium_dex.Instructions.Runtime.{Runtime, IsTransfer}
use elysium_dex.Instructions.Setup.{
  InitializePool, initialize_pool_handler, empty_pool, initialize_reward_handler,
}
use elysium_dex.Instructions.Admin.{
  set_fee_rate_handler, set_protocol_fee_rate_handler, set_reward_authority_handler,
  set_reward_authority_by_super_authority_handler,
}
use elysium_dex.Instructions.Trade.Hops.{
  first_hop, second_hop, two_hop_swap_handler-eq-swap_handler,
}
use elysium_dex.Instructions.Lifetime.{
  Call, Calls, no_call, then_call, call_set_fee_rate, call_set_protocol_fee_rate,
  call_set_reward_authority, call_set_reward_authority_by_super_authority,
  call_set_reward_emissions, call_initialize_reward, call_collect_protocol_fees,
  call_increase_liquidity, call_decrease_liquidity, call_update_fees_and_rewards, call_swap,
  call_two_hop_swap_one, call_two_hop_swap_two,
}
use elysium_dex.Instructions.Lifetime.Simulation.{
  update_fees_and_rewards-Step, swap-Step, collect_protocol_fees-Step, increase_liquidity-Step,
  decrease_liquidity-Step, set_reward_emissions-Step,
}

module _ {Bank : Type 0} (runtime : Runtime Bank) where
  Call-Step : (laws : IsTransfer runtime) {p p' : ElysiumPool} → Call runtime p p' → Step p p'
  unfolding set_fee_rate_handler set_protocol_fee_rate_handler set_reward_authority_handler
      set_reward_authority_by_super_authority_handler initialize_reward_handler
  Call-Step laws (call_set_fee_rate config p p' s rate e) =
      Life.set_fee_rate p p' rate (guarded_call_returns _ _ e).1
  Call-Step laws (call_set_protocol_fee_rate config p p' s rate e) =
      Life.set_protocol_fee_rate p p' rate (guarded_call_returns _ _ e).1
  Call-Step laws (call_set_reward_authority p p' s authority index e) =
      let (r, a, e1) = bind_finishes (lift (unwrap (entry? p.reward_infos index))) _ e in
      Life.set_authority p p' index authority (guarded_call_returns _ _ e1).1
  Call-Step laws (call_set_reward_authority_by_super_authority config p p' s authority index e) =
      Life.set_authority p p' index authority (guarded_call_returns _ _ e).1
  Call-Step laws (call_set_reward_emissions bank p p' s vault index emissions time e) =
      set_reward_emissions-Step runtime bank p p' s vault index emissions time e
  Call-Step laws (call_initialize_reward c index p' ne e) =
      let (r, a, e1) = bind_finishes (lift (unwrap (entry? c.pool.reward_infos index))) _ e in
      Life.add_reward c.pool p' index c.reward_mint c.reward_vault ne
        (guarded_call_returns _ _ e1).1
  Call-Step laws (call_collect_protocol_fees bank c result e) =
      collect_protocol_fees-Step runtime bank c result e
  Call-Step laws (call_increase_liquidity bank c amount max_a max_b time result e) =
      increase_liquidity-Step runtime bank c amount max_a max_b time result e
  Call-Step laws (call_decrease_liquidity bank c amount min_a min_b time result e) =
      decrease_liquidity-Step runtime bank c amount min_a min_b time result e
  Call-Step laws (call_update_fees_and_rewards pool_key acc acc' time e) =
      update_fees_and_rewards-Step pool_key acc acc' time e
  Call-Step laws (call_swap fuel bank acc s x time result e) =
      swap-Step runtime fuel bank acc s x time result e
  Call-Step laws (call_two_hop_swap_one fuel bank one two s x time result e) =
      let (c, t, middle, clock, calculated, first, second, different, between) =
        two_hop_swap_handler-eq-swap_handler runtime laws fuel bank one two s x time result e in
      swap-Step runtime fuel bank one s (first_hop x c) time (middle, result.1) first
  Call-Step laws (call_two_hop_swap_two fuel bank one two s x time result e) =
      let (c, t, middle, clock, calculated, first, second, different, between) =
        two_hop_swap_handler-eq-swap_handler runtime laws fuel bank one two s x time result e in
      swap-Step runtime fuel middle two s (second_hop x c) time (result.0, result.2) second

  -- Every sequence of instructions that finish on a pool is a sequence of the steps of its life, if
  -- transfers are as `IsTransfer` says and no reward is of the default mint.
  pub Calls-Steps :
      (laws : IsTransfer runtime) (p p' : ElysiumPool) → Calls runtime p p' → Steps p p'
  Calls-Steps laws p p' no_call = start
  Calls-Steps laws p p' (then_call {q} calls call) =
      then_step (Calls-Steps laws p q calls) (Call-Step laws call)

  -- Where transfers are as `IsTransfer` says and no reward is of the default mint, from the
  -- instruction `initialize_pool` on no sequence of instructions takes the fee rates out of their
  -- bounds, initialises the rewards out of order, changes the tick spacing, the mints or the vaults
  -- of the pool or of an initialised reward, or takes the pool's clock back.
  pub initialize_pool_handler-Calls-IsValid :
      (laws : IsTransfer runtime) (c : InitializePool) (tick_spacing initial_sqrt_price : ℕ)
      (p q : ElysiumPool)
      → initialize_pool_handler runtime c tick_spacing initial_sqrt_price ≡ done p
      → Calls runtime p q
      → IsValid q × Stays p q
  unfolding initialize_pool_handler
  initialize_pool_handler-Calls-IsValid laws c spacing price p q e calls =
      let steps = Calls-Steps laws p q calls in
      (
        initialize-Steps-IsValid empty_pool p q c.pools_config.key c.pools_config.content c.bump
            spacing price c.fee_tier.default_fee_rate c.token_mint_a c.token_vault_a c.token_mint_b
            c.token_vault_b (guarded_call_returns _ _ e).1 steps,
        Steps-Stays p q steps,
      )
