-- ===== src/Instructions/Admin.antt =====
-- programs/elysium/src/instructions/set_*.rs: what the authorities of a config and of a reward may
-- change. Each handler returns the account that it writes.
use elysium_dex.Base.{ℕ, Bool, ◌&&◌, entry?, ltb, ◌==◌}
use elysium_dex.Base.Int.{ℤ}
use elysium_dex.Errors.{unwrap, fail_if, reward_vault_amount_insufficient}
use elysium_dex.Math.Bit.{checked_mul_shift_right}
use elysium_dex.State.Config.{
  ElysiumPoolsConfig, update_fee_authority, update_collect_protocol_fees_authority,
  update_reward_emissions_super_authority, update_default_protocol_fee_rate,
}
use elysium_dex.State.FeeTier.{FeeTier, update_default_fee_rate}
use elysium_dex.State.Pool.{
  ElysiumPool, update_fee_rate, update_protocol_fee_rate, update_reward_authority, update_emissions,
}
use elysium_dex.Manager.Pool.{next_pool_reward_infos}
use elysium_dex.Util.Authority.{Signer, to_timestamp_u64}
use elysium_dex.Instructions.Outcome.{Outcome, done, lift, require, Account, ◌>>=◌, ◌>>◌}
use elysium_dex.Instructions.Runtime.{Runtime}

-- `Signer` with the attribute `address`.
unfoldable pub is_signed_by : Signer → ℕ → Bool
is_signed_by s authority = s.is_signer && s.key == authority

-- set_fee_authority.rs, `handler`
unfoldable pub set_fee_authority_handler :
    ElysiumPoolsConfig → Signer → (new_fee_authority : ℕ) → Outcome ElysiumPoolsConfig
set_fee_authority_handler config signer new_authority = do
  require (is_signed_by signer config.fee_authority)
  done (update_fee_authority config new_authority)

-- set_collect_protocol_fees_authority.rs, `handler`
unfoldable pub set_collect_protocol_fees_authority_handler :
    ElysiumPoolsConfig
    → Signer
    → (new_collect_protocol_fees_authority : ℕ) → Outcome ElysiumPoolsConfig
set_collect_protocol_fees_authority_handler config signer new_authority = do
  require (is_signed_by signer config.collect_protocol_fees_authority)
  done (update_collect_protocol_fees_authority config new_authority)

-- set_reward_emissions_super_authority.rs, `handler`
unfoldable pub set_reward_emissions_super_authority_handler :
    ElysiumPoolsConfig
    → Signer
    → (new_reward_emissions_super_authority : ℕ) → Outcome ElysiumPoolsConfig
set_reward_emissions_super_authority_handler config signer new_authority = do
  require (is_signed_by signer config.reward_emissions_super_authority)
  done (update_reward_emissions_super_authority config new_authority)

-- set_default_protocol_fee_rate.rs, `handler`
unfoldable pub set_default_protocol_fee_rate_handler :
    ElysiumPoolsConfig → Signer → (default_protocol_fee_rate : ℕ) → Outcome ElysiumPoolsConfig
set_default_protocol_fee_rate_handler config signer rate = do
  require (is_signed_by signer config.fee_authority)
  lift (update_default_protocol_fee_rate config rate)

-- set_default_fee_rate.rs, `handler`
unfoldable pub set_default_fee_rate_handler :
    Account ElysiumPoolsConfig → FeeTier → Signer → (default_fee_rate : ℕ) → Outcome FeeTier
set_default_fee_rate_handler config tier signer rate = do
  require (tier.pools_config == config.key && is_signed_by signer config.content.fee_authority)
  lift (update_default_fee_rate tier rate)

-- set_fee_rate.rs, `handler`
unfoldable pub set_fee_rate_handler :
    Account ElysiumPoolsConfig → ElysiumPool → Signer → (fee_rate : ℕ) → Outcome ElysiumPool
set_fee_rate_handler config pool signer rate = do
  require (pool.pools_config == config.key && is_signed_by signer config.content.fee_authority)
  lift (update_fee_rate pool rate)

-- set_protocol_fee_rate.rs, `handler`
unfoldable pub set_protocol_fee_rate_handler :
    Account ElysiumPoolsConfig
    → ElysiumPool
    → Signer
    → (protocol_fee_rate : ℕ) → Outcome ElysiumPool
set_protocol_fee_rate_handler config pool signer rate = do
  require (pool.pools_config == config.key && is_signed_by signer config.content.fee_authority)
  lift (update_protocol_fee_rate pool rate)

-- set_reward_authority.rs, `handler`. An index past the rewards panics, since the accounts are
-- checked first.
unfoldable pub set_reward_authority_handler :
    ElysiumPool → Signer → (new_reward_authority reward_index : ℕ) → Outcome ElysiumPool
set_reward_authority_handler pool signer new_authority reward_index = do
  reward ← lift (unwrap (entry? pool.reward_infos reward_index))
  require (is_signed_by signer reward.authority)
  lift (update_reward_authority pool reward_index new_authority)

-- set_reward_authority_by_super_authority.rs, `handler`
unfoldable pub set_reward_authority_by_super_authority_handler :
    Account ElysiumPoolsConfig
    → ElysiumPool
    → Signer
    → (new_reward_authority reward_index : ℕ) → Outcome ElysiumPool
set_reward_authority_by_super_authority_handler config pool signer new_authority reward_index = do
  require (
      pool.pools_config == config.key
      && is_signed_by signer config.content.reward_emissions_super_authority)
  lift (update_reward_authority pool reward_index new_authority)

abbrev pub day_in_seconds : ℕ
day_in_seconds = 86400

-- set_reward_emissions.rs, `handler`, after the constraints on its accounts. The vault has to hold
-- what the reward pays in a day.
unfoldable pub set_reward_emissions_handler :
    {Bank : Type 0}
    → Runtime Bank
    → Bank
    → ElysiumPool
    → Signer
    → (reward_vault reward_index emissions_per_second_x64 : ℕ) → ℤ
    → Outcome ElysiumPool
set_reward_emissions_handler runtime bank pool signer reward_vault reward_index emissions
      unix_timestamp =
    do
      reward ← lift (unwrap (entry? pool.reward_infos reward_index))
      require (is_signed_by signer reward.authority && reward_vault == reward.vault)
      emissions_per_day ← lift (checked_mul_shift_right day_in_seconds emissions)
      lift (
          fail_if (ltb (runtime.token_account bank reward_vault).amount emissions_per_day)
            reward_vault_amount_insufficient)
      timestamp ← lift (to_timestamp_u64 unix_timestamp)
      reward_infos ← lift (next_pool_reward_infos pool timestamp)
      lift (update_emissions pool reward_index reward_infos timestamp emissions)
