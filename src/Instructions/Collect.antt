-- ===== src/Instructions/Collect.antt =====
-- programs/elysium/src/instructions/collect_fees.rs, collect_protocol_fees.rs and
-- collect_reward.rs: paying out what is owed.
pub mod Payout
use elysium_dex.Base.{ℕ, ◌-◌, Bool, ◌&&◌, entry?, ltb, ◌==◌, if◌then◌else◌}
use elysium_dex.Errors.{unwrap}
use elysium_dex.State.Config.{ElysiumPoolsConfig}
use elysium_dex.State.RewardInfo.{ElysiumPoolRewardInfo}
use elysium_dex.State.Pool.{ElysiumPool, reset_protocol_fees_owed}
use elysium_dex.State.Position.{Position, PositionRewardInfo, reset_fees_owed, update_reward_owed}
use elysium_dex.Util.Authority.{Signer, verify_position_authority}
use elysium_dex.Instructions.Outcome.{Outcome, done, lift, require, Account, ◌>>=◌, ◌>>◌}
use elysium_dex.Instructions.Runtime.{Runtime, transfer_from_vault_to_owner}
use elysium_dex.Instructions.Liquidity.{holds_position}

-- `CollectFees`
pub record CollectFees : Type 0 where
  pub pool : Account ElysiumPool
  pub position : Position
  pub position_authority : Signer
  pub position_token_account : ℕ
  pub token_owner_account_a : ℕ
  pub token_vault_a : ℕ
  pub token_owner_account_b : ℕ
  pub token_vault_b : ℕ

-- `CollectProtocolFees`
pub record CollectProtocolFees : Type 0 where
  pub pools_config : Account ElysiumPoolsConfig
  pub pool : Account ElysiumPool
  pub collect_protocol_fees_authority : Signer
  pub token_vault_a : ℕ
  pub token_vault_b : ℕ
  pub token_destination_a : ℕ
  pub token_destination_b : ℕ

-- `CollectReward`
pub record CollectReward : Type 0 where
  pub pool : Account ElysiumPool
  pub position : Position
  pub position_authority : Signer
  pub position_token_account : ℕ
  pub reward_owner_account : ℕ
  pub reward_vault : ℕ

-- The amount to transfer, and what is still owed.
unfoldable pub calculate_collect_reward : PositionRewardInfo → ℕ → ℕ × ℕ
calculate_collect_reward r vault_amount =
    if ltb vault_amount r.amount_owed
    then (vault_amount, r.amount_owed - vault_amount)
    else (r.amount_owed, 0)

module _ {Bank : Type 0} (runtime : Runtime Bank) where
  unfoldable pub collect_fees_constraints : Bank → CollectFees → Bool
  collect_fees_constraints bank c =
      let p = c.pool.content in
      c.position_authority.is_signer
      && c.position.pool == c.pool.key
      && holds_position (runtime.token_account bank c.position_token_account) c.position
      && (runtime.token_account bank c.token_owner_account_a).mint == p.token_mint_a
      && c.token_vault_a == p.token_vault_a
      && (runtime.token_account bank c.token_owner_account_b).mint == p.token_mint_b
      && c.token_vault_b == p.token_vault_b

  -- collect_fees.rs, `handler`, with the position that it leaves.
  unfoldable pub collect_fees_handler : Bank → CollectFees → Outcome (Bank × Position)
  collect_fees_handler bank c = do
    require (collect_fees_constraints bank c)
    lift (
        verify_position_authority (runtime.token_account bank c.position_token_account)
          c.position_authority)
    paid_a ←
        transfer_from_vault_to_owner runtime bank c.pool.key c.token_vault_a c.token_owner_account_a
          c.position.fee_owed_a
    paid_b ←
        transfer_from_vault_to_owner runtime paid_a c.pool.key c.token_vault_b
          c.token_owner_account_b c.position.fee_owed_b
    done (paid_b, reset_fees_owed c.position)

  unfoldable pub collect_protocol_fees_constraints : Bank → CollectProtocolFees → Bool
  collect_protocol_fees_constraints bank c =
      let p = c.pool.content in
      let authority = c.collect_protocol_fees_authority in
      authority.is_signer
      && p.pools_config == c.pools_config.key
      && authority.key == c.pools_config.content.collect_protocol_fees_authority
      && c.token_vault_a == p.token_vault_a
      && c.token_vault_b == p.token_vault_b
      && (runtime.token_account bank c.token_destination_a).mint == p.token_mint_a
      && (runtime.token_account bank c.token_destination_b).mint == p.token_mint_b

  -- collect_protocol_fees.rs, `handler`, with the pool that it leaves.
  unfoldable pub collect_protocol_fees_handler :
      Bank → CollectProtocolFees → Outcome (Bank × ElysiumPool)
  collect_protocol_fees_handler bank c = do
    let p = c.pool.content
    require (collect_protocol_fees_constraints bank c)
    paid_a ←
        transfer_from_vault_to_owner runtime bank c.pool.key c.token_vault_a c.token_destination_a
          p.protocol_fee_owed_a
    paid_b ←
        transfer_from_vault_to_owner runtime paid_a c.pool.key c.token_vault_b c.token_destination_b
          p.protocol_fee_owed_b
    done (paid_b, reset_protocol_fees_owed p)

  -- The attributes of the accounts before those that look the reward up.
  unfoldable pub reward_position_constraints : Bank → CollectReward → Bool
  reward_position_constraints bank c =
      c.position_authority.is_signer
      && c.position.pool == c.pool.key
      && holds_position (runtime.token_account bank c.position_token_account) c.position

  -- `r` is the pool's reward of the index.
  unfoldable pub reward_token_constraints : Bank → CollectReward → ElysiumPoolRewardInfo → Bool
  reward_token_constraints bank c r =
      (runtime.token_account bank c.reward_owner_account).mint == r.mint
      && c.reward_vault == r.vault

  -- collect_reward.rs, `handler`, with the position that it leaves. An index past the rewards
  -- panics.
  unfoldable pub collect_reward_handler : Bank → CollectReward → ℕ → Outcome (Bank × Position)
  collect_reward_handler bank c reward_index = do
    require (reward_position_constraints bank c)
    reward ← lift (unwrap (entry? c.pool.content.reward_infos reward_index))
    require (reward_token_constraints bank c reward)
    lift (
        verify_position_authority (runtime.token_account bank c.position_token_account)
          c.position_authority)
    owed ← lift (unwrap (entry? c.position.reward_infos reward_index))
    let (transfer_amount, updated_amount_owed) =
        calculate_collect_reward owed (runtime.token_account bank c.reward_vault).amount
    position ← lift (update_reward_owed c.position reward_index updated_amount_owed)
    paid ←
        transfer_from_vault_to_owner runtime bank c.pool.key c.reward_vault c.reward_owner_account
          transfer_amount
    done (paid, position)
