-- ===== src/Instructions/Liquidity.antt =====
-- programs/elysium/src/instructions/increase_liquidity.rs, decrease_liquidity.rs and
-- update_fees_and_rewards.rs: changing the liquidity of a position, and bringing it up to date.
pub mod Runs
use elysium_dex.Base.{ℕ, Bool, true, false, ◌&&◌, ltb, ◌==◌}
use elysium_dex.Base.Int.{ℤ}
use elysium_dex.Errors.{fail_if, liquidity_zero, token_max_exceeded, token_min_subceeded}
use elysium_dex.Math.Liquidity.{convert_to_liquidity_delta}
use elysium_dex.State.Pool.{update_rewards}
use elysium_dex.State.Position as PositionState
use elysium_dex.State.Position.{Position}
use elysium_dex.Util.Authority.{TokenAccount, Signer, verify_position_authority, to_timestamp_u64}
use elysium_dex.Manager.Liquidity.{
  TickArrayPair, lower_array, upper_array, LiquidityAccounts, calculate_modify_liquidity,
  calculate_fee_and_reward_growths, calculate_liquidity_token_deltas, sync_modify_liquidity_values,
}
use elysium_dex.Instructions.Outcome.{Outcome, done, lift, require, ◌>>=◌, ◌>>◌}
use elysium_dex.Instructions.Runtime.{
  Runtime, transfer_from_owner_to_vault, transfer_from_vault_to_owner,
}

-- `ModifyLiquidity`: the accounts that are written, with the pool's key, and the keys of the token
-- accounts.
pub record ModifyLiquidity : Type 0 where
  pub pool_key : ℕ
  pub accounts : LiquidityAccounts
  pub position_authority : Signer
  pub position_token_account : ℕ
  pub token_owner_account_a : ℕ
  pub token_owner_account_b : ℕ
  pub token_vault_a : ℕ
  pub token_vault_b : ℕ

-- The position token: it is of the position's mint, and there is one of it.
unfoldable pub holds_position : TokenAccount → Position → Bool
holds_position t position = t.mint == position.position_mint && t.amount == 1

-- Both tick arrays are the pool's.
unfoldable pub arrays_of_pool : TickArrayPair → ℕ → Bool
arrays_of_pool arrays pool_key =
    (lower_array arrays).pool == pool_key && (upper_array arrays).pool == pool_key

-- What both handlers do between their checks and the transfers: the accounts that they write, and
-- the amounts of the two tokens.
unfoldable pub change_liquidity : LiquidityAccounts → ℤ → ℕ → Outcome (LiquidityAccounts × (ℕ × ℕ))
change_liquidity acc delta timestamp = do
  u ← lift (calculate_modify_liquidity acc.pool acc.position acc.arrays delta timestamp)
  changed ← lift (sync_modify_liquidity_values acc u timestamp)
  deltas ← lift (
      calculate_liquidity_token_deltas changed.pool.tick_current_index changed.pool.sqrt_price
        changed.position delta)
  done (changed, deltas)

module _ {Bank : Type 0} (runtime : Runtime Bank) where
  -- The attributes of the accounts, `Signer` included.
  unfoldable pub modify_constraints : Bank → ModifyLiquidity → Bool
  modify_constraints bank c =
      let p = c.accounts.pool in
      c.position_authority.is_signer
      && c.accounts.position.pool == c.pool_key
      && holds_position (runtime.token_account bank c.position_token_account) c.accounts.position
      && (runtime.token_account bank c.token_owner_account_a).mint == p.token_mint_a
      && (runtime.token_account bank c.token_owner_account_b).mint == p.token_mint_b
      && c.token_vault_a == p.token_vault_a
      && c.token_vault_b == p.token_vault_b
      && arrays_of_pool c.accounts.arrays c.pool_key

  -- increase_liquidity.rs, `handler`
  unfoldable pub increase_liquidity_handler :
      Bank
      → ModifyLiquidity
      → (liquidity_amount token_max_a token_max_b : ℕ) → ℤ
      → Outcome (Bank × LiquidityAccounts)
  increase_liquidity_handler bank c liquidity_amount token_max_a token_max_b unix_timestamp = do
    require (modify_constraints bank c)
    lift (
        verify_position_authority (runtime.token_account bank c.position_token_account)
          c.position_authority)
    lift (fail_if (liquidity_amount == 0) liquidity_zero)
    delta ← lift (convert_to_liquidity_delta liquidity_amount true)
    timestamp ← lift (to_timestamp_u64 unix_timestamp)
    change ← change_liquidity c.accounts delta timestamp
    lift (fail_if (ltb token_max_a change.1.0) token_max_exceeded)
    lift (fail_if (ltb token_max_b change.1.1) token_max_exceeded)
    paid_a ←
        transfer_from_owner_to_vault runtime bank c.position_authority c.token_owner_account_a
          c.token_vault_a change.1.0
    paid_b ←
        transfer_from_owner_to_vault runtime paid_a c.position_authority c.token_owner_account_b
          c.token_vault_b change.1.1
    done (paid_b, change.0)

  -- decrease_liquidity.rs, `handler`
  unfoldable pub decrease_liquidity_handler :
      Bank
      → ModifyLiquidity
      → (liquidity_amount token_min_a token_min_b : ℕ) → ℤ
      → Outcome (Bank × LiquidityAccounts)
  decrease_liquidity_handler bank c liquidity_amount token_min_a token_min_b unix_timestamp = do
    require (modify_constraints bank c)
    lift (
        verify_position_authority (runtime.token_account bank c.position_token_account)
          c.position_authority)
    lift (fail_if (liquidity_amount == 0) liquidity_zero)
    delta ← lift (convert_to_liquidity_delta liquidity_amount false)
    timestamp ← lift (to_timestamp_u64 unix_timestamp)
    change ← change_liquidity c.accounts delta timestamp
    lift (fail_if (ltb change.1.0 token_min_a) token_min_subceeded)
    lift (fail_if (ltb change.1.1 token_min_b) token_min_subceeded)
    paid_a ←
        transfer_from_vault_to_owner runtime bank c.pool_key c.token_vault_a c.token_owner_account_a
          change.1.0
    paid_b ←
        transfer_from_vault_to_owner runtime paid_a c.pool_key c.token_vault_b
          c.token_owner_account_b change.1.1
    done (paid_b, change.0)

-- update_fees_and_rewards.rs, `handler`: anyone may call it.
unfoldable pub update_fees_and_rewards_handler :
    (pool_key : ℕ) → LiquidityAccounts → ℤ → Outcome LiquidityAccounts
update_fees_and_rewards_handler pool_key acc unix_timestamp = do
  require (acc.position.pool == pool_key && arrays_of_pool acc.arrays pool_key)
  timestamp ← lift (to_timestamp_u64 unix_timestamp)
  (position_update, reward_infos) ←
      lift (calculate_fee_and_reward_growths acc.pool acc.position acc.arrays timestamp)
  done (record acc {
    pool = update_rewards acc.pool reward_infos timestamp;
    position = PositionState.update acc.position position_update;
  })
