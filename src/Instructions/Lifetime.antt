-- ===== src/Instructions/Lifetime.antt =====
-- The instructions that write a pool, as the steps of Manager/Pool/Lifetime.
pub mod Rewards
pub mod Simulation
pub mod Refinement
use elysium_dex.Base.{
  ℕ, ◌+◌, ◌≤◌, ◌≡◌, ◌≢◌, refl, sym, ap, subst, ◌∙◌, arith, Bool, true, false, not, ◌&&◌, leb, ltb,
  ◌==◌, entry?,
}
use elysium_dex.Base.Int.{ℤ}
use elysium_dex.Errors.{
  ok, unwrap, fail_if, liquidity_zero, token_max_exceeded, token_min_subceeded,
  reward_vault_amount_insufficient,
}
use elysium_dex.Math.Bit.{checked_mul_shift_right}
use elysium_dex.Math.Liquidity.{convert_to_liquidity_delta}
use elysium_dex.State.Config.{ElysiumPoolsConfig}
use elysium_dex.State.Pool.{
  ElysiumPool, update_rewards, update_rewards_and_liquidity, update_after_swap,
  reset_protocol_fees_owed, update_fee_rate, update_protocol_fee_rate, update_reward_authority,
  update_emissions, initialize_reward,
}
use elysium_dex.Util.Authority.{Signer, to_timestamp_u64, verify_position_authority}
use elysium_dex.Manager.Pool.{next_pool_reward_infos}
use elysium_dex.Manager.Pool.Lifetime as Life
use elysium_dex.Manager.Pool.Lifetime.{Step, Steps, start, then_step, IsValid, Stays}
use elysium_dex.Manager.Liquidity.{
  LiquidityAccounts, calculate_modify_liquidity, calculate_fee_and_reward_growths,
  calculate_liquidity_token_deltas, sync_modify_liquidity_values,
}
use elysium_dex.Manager.Swap.{swap}
use elysium_dex.Instructions.Outcome.{
  Outcome, done, lift, require, in_rounds, Account, bind_finishes, done_injective, lift_returns,
  ◌>>=◌, ◌>>◌,
}
use elysium_dex.Instructions.Runtime.{
  Runtime, IsTransfer, transfer_from_vault_to_owner, transfer_from_owner_to_vault,
}
use elysium_dex.Instructions.Trade.{
  PoolAccounts, SwapArguments, TwoHopArguments, TradeResult, Calculated, Traded, load_arrays,
  calculate_swap, perform_swap, update_and_swap_pool, settle_swap, swap_handler,
  two_hop_swap_handler,
}
use elysium_dex.Instructions.Trade.Exchange.{swap_handler-inverts, in_rounds_finishes}
use elysium_dex.Instructions.Liquidity.{
  ModifyLiquidity, change_liquidity, modify_constraints, increase_liquidity_handler,
  decrease_liquidity_handler, update_fees_and_rewards_handler,
}
use elysium_dex.Instructions.Collect.{
  CollectProtocolFees, collect_protocol_fees_constraints, collect_protocol_fees_handler,
}
use elysium_dex.Instructions.Setup.{InitializeReward, initialize_reward_handler}
use elysium_dex.Instructions.Admin.{
  set_fee_rate_handler, set_protocol_fee_rate_handler, set_reward_authority_handler,
  set_reward_authority_by_super_authority_handler, set_reward_emissions_handler, is_signed_by,
  day_in_seconds,
}

module _ {Bank : Type 0} (runtime : Runtime Bank) where
  -- An instruction that finishes, from the pool that it reads to the pool that it leaves. The mint
  -- of a reward is an account, so that its key is not the default one.
  pub data Call : ElysiumPool → ElysiumPool → Type 0 where
    call_set_fee_rate :
        (config : Account ElysiumPoolsConfig) (p p' : ElysiumPool) (signer : Signer) (rate : ℕ)
        → set_fee_rate_handler config p signer rate ≡ done p'
        → Call p p'
    call_set_protocol_fee_rate :
        (config : Account ElysiumPoolsConfig) (p p' : ElysiumPool) (signer : Signer) (rate : ℕ)
        → set_protocol_fee_rate_handler config p signer rate ≡ done p'
        → Call p p'
    call_set_reward_authority :
        (p p' : ElysiumPool) (signer : Signer) (new_authority index : ℕ)
        → set_reward_authority_handler p signer new_authority index ≡ done p'
        → Call p p'
    call_set_reward_authority_by_super_authority :
        (config : Account ElysiumPoolsConfig) (p p' : ElysiumPool) (signer : Signer)
        (new_authority index : ℕ)
        → set_reward_authority_by_super_authority_handler config p signer new_authority index
          ≡ done p'
        → Call p p'
    call_set_reward_emissions :
        (bank : Bank) (p p' : ElysiumPool) (signer : Signer) (vault index emissions : ℕ) (time : ℤ)
        → set_reward_emissions_handler runtime bank p signer vault index emissions time ≡ done p'
        → Call p p'
    call_initialize_reward :
        (c : InitializeReward) (index : ℕ) (p' : ElysiumPool)
        → c.reward_mint ≢ 0
        → initialize_reward_handler c index ≡ done p'
        → Call c.pool p'
    call_collect_protocol_fees :
        (bank : Bank) (c : CollectProtocolFees) (result : Bank × ElysiumPool)
        → collect_protocol_fees_handler runtime bank c ≡ done result
        → Call c.pool.content result.1
    call_increase_liquidity :
        (bank : Bank) (c : ModifyLiquidity) (amount max_a max_b : ℕ) (time : ℤ)
        (result : Bank × LiquidityAccounts)
        → increase_liquidity_handler runtime bank c amount max_a max_b time ≡ done result
        → Call c.accounts.pool result.1.pool
    call_decrease_liquidity :
        (bank : Bank) (c : ModifyLiquidity) (amount min_a min_b : ℕ) (time : ℤ)
        (result : Bank × LiquidityAccounts)
        → decrease_liquidity_handler runtime bank c amount min_a min_b time ≡ done result
        → Call c.accounts.pool result.1.pool
    call_update_fees_and_rewards :
        (pool_key : ℕ) (acc acc' : LiquidityAccounts) (time : ℤ)
        → update_fees_and_rewards_handler pool_key acc time ≡ done acc'
        → Call acc.pool acc'.pool
    call_swap :
        (fuel : ℕ) (bank : Bank) (acc : PoolAccounts) (authority : Signer) (x : SwapArguments)
        (time : ℤ) (result : TradeResult Bank)
        → swap_handler runtime fuel bank acc authority x time ≡ done result
        → Call acc.pool.content result.1.pool
    call_two_hop_swap_one :
        (fuel : ℕ) (bank : Bank) (one two : PoolAccounts) (authority : Signer) (x : TwoHopArguments)
        (time : ℤ) (result : Bank × Traded × Traded)
        → two_hop_swap_handler runtime fuel bank one two authority x time ≡ done result
        → Call one.pool.content result.1.pool
    call_two_hop_swap_two :
        (fuel : ℕ) (bank : Bank) (one two : PoolAccounts) (authority : Signer) (x : TwoHopArguments)
        (time : ℤ) (result : Bank × Traded × Traded)
        → two_hop_swap_handler runtime fuel bank one two authority x time ≡ done result
        → Call two.pool.content result.2.pool

  -- The instructions on a pool, one after the other.
  pub data Calls (p : ElysiumPool) : ElysiumPool → Type 0 where
    no_call : Calls p p
    then_call : {q q' : ElysiumPool} → Calls p q → Call q q' → Calls p q'
