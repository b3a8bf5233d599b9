-- ===== src/Instructions/Setup.antt =====
-- programs/elysium/src/instructions/initialize_config.rs, initialize_fee_tier.rs,
-- initialize_pool.rs, initialize_reward.rs and initialize_tick_array.rs: the accounts that the
-- others need. Anchor creates an account marked `init` before its handler runs, and all its bytes
-- are zero.
use elysium_dex.Base.{ℕ, ◌&&◌, fill, entry?, ◌==◌}
use elysium_dex.Base.Int.{ℤ, pos}
use elysium_dex.Errors.{unwrap}
use elysium_dex.State.Config as Config
use elysium_dex.State.Config.{ElysiumPoolsConfig}
use elysium_dex.State.FeeTier as FeeTierState
use elysium_dex.State.FeeTier.{FeeTier}
use elysium_dex.State.RewardInfo.{ElysiumPoolRewardInfo}
use elysium_dex.State.Pool as Pool
use elysium_dex.State.Pool.{ElysiumPool}
use elysium_dex.State.TickArray as TickArrayState
use elysium_dex.State.TickArray.{TickArray, default_tick_array}
use elysium_dex.Util.Authority.{Signer}
use elysium_dex.Instructions.Outcome.{Outcome, lift, require, Account, ◌>>=◌, ◌>>◌}
use elysium_dex.Instructions.Runtime.{Runtime, fee_tier_seeds, pool_seeds, tick_array_seeds}

abbrev pub empty_config : ElysiumPoolsConfig
empty_config = record {
  fee_authority = 0;
  collect_protocol_fees_authority = 0;
  reward_emissions_super_authority = 0;
  default_protocol_fee_rate = 0;
}

abbrev pub empty_fee_tier : FeeTier
empty_fee_tier = record { pools_config = 0; tick_spacing = 0; default_fee_rate = 0 }

abbrev pub empty_reward : ElysiumPoolRewardInfo
empty_reward = record {
  mint = 0;
  vault = 0;
  authority = 0;
  emissions_per_second_x64 = 0;
  growth_global_x64 = 0;
}

abbrev pub empty_pool : ElysiumPool
empty_pool = record {
  pools_config = 0;
  pool_bump = 0;
  tick_spacing = 0;
  tick_spacing_seed = (0, 0);
  fee_rate = 0;
  protocol_fee_rate = 0;
  liquidity = 0;
  sqrt_price = 0;
  tick_current_index = pos 0;
  protocol_fee_owed_a = 0;
  protocol_fee_owed_b = 0;
  token_mint_a = 0;
  token_vault_a = 0;
  fee_growth_global_a = 0;
  token_mint_b = 0;
  token_vault_b = 0;
  fee_growth_global_b = 0;
  reward_last_updated_timestamp = 0;
  reward_infos = fill empty_reward;
}

-- initialize_config.rs, `handler`; the funder signs, and may be anyone.
unfoldable pub initialize_config_handler :
    Signer
    → (fee_authority collect_protocol_fees_authority reward_emissions_super_authority : ℕ)
    → (default_protocol_fee_rate : ℕ) → Outcome ElysiumPoolsConfig
initialize_config_handler funder fee_authority collect_authority super_authority rate = do
  require funder.is_signer
  lift (Config.initialize empty_config fee_authority collect_authority super_authority rate)

-- `InitializeFeeTier`
pub record InitializeFeeTier : Type 0 where
  pub config : Account ElysiumPoolsConfig
  pub fee_tier_key : ℕ
  pub funder : Signer
  pub fee_authority : Signer

-- `InitializePool`: the bump is the one that Anchor finds with the pool's address.
pub record InitializePool : Type 0 where
  pub pools_config : Account ElysiumPoolsConfig
  pub token_mint_a : ℕ
  pub token_mint_b : ℕ
  pub funder : Signer
  pub pool_key : ℕ
  pub bump : ℕ
  pub token_vault_a : ℕ
  pub token_vault_b : ℕ
  pub fee_tier : FeeTier

-- `InitializeReward`
pub record InitializeReward : Type 0 where
  pub reward_authority : Signer
  pub funder : Signer
  pub pool : ElysiumPool
  pub reward_mint : ℕ
  pub reward_vault : ℕ

-- `InitializeTickArray`
pub record InitializeTickArray : Type 0 where
  pub pool : Account ElysiumPool
  pub funder : Signer
  pub tick_array_key : ℕ

-- initialize_reward.rs, `handler`, with the pool that it leaves. An index past the rewards panics,
-- since the accounts are checked first.
unfoldable pub initialize_reward_handler :
    InitializeReward → (reward_index : ℕ) → Outcome ElysiumPool
initialize_reward_handler c reward_index = do
  reward ← lift (unwrap (entry? c.pool.reward_infos reward_index))
  require (
      c.reward_authority.is_signer
      && c.reward_authority.key == reward.authority
      && c.funder.is_signer)
  lift (Pool.initialize_reward c.pool reward_index c.reward_mint c.reward_vault)

module _ {Bank : Type 0} (runtime : Runtime Bank) where
  -- initialize_fee_tier.rs, `handler`
  unfoldable pub initialize_fee_tier_handler :
      InitializeFeeTier → (tick_spacing default_fee_rate : ℕ) → Outcome FeeTier
  initialize_fee_tier_handler c tick_spacing default_fee_rate = do
    require (
        c.funder.is_signer
        && c.fee_tier_key == runtime.address (fee_tier_seeds c.config.key tick_spacing)
        && c.fee_authority.is_signer
        && c.fee_authority.key == c.config.content.fee_authority)
    lift (FeeTierState.initialize empty_fee_tier c.config.key tick_spacing default_fee_rate)

  -- initialize_pool.rs, `handler`
  unfoldable pub initialize_pool_handler :
      InitializePool → (tick_spacing initial_sqrt_price : ℕ) → Outcome ElysiumPool
  initialize_pool_handler c tick_spacing initial_sqrt_price = do
    require (
        c.funder.is_signer
        && c.pool_key
          == runtime.address
              (pool_seeds c.pools_config.key c.token_mint_a c.token_mint_b tick_spacing)
        && c.fee_tier.pools_config == c.pools_config.key)
    lift (
        Pool.initialize empty_pool c.pools_config.key c.pools_config.content c.bump tick_spacing
          initial_sqrt_price c.fee_tier.default_fee_rate c.token_mint_a c.token_vault_a
          c.token_mint_b c.token_vault_b)

  -- initialize_tick_array.rs, `handler`
  unfoldable pub initialize_tick_array_handler :
      InitializeTickArray → (start_tick_index : ℤ) → Outcome TickArray
  initialize_tick_array_handler c start_tick_index = do
    require (
        c.funder.is_signer
        && c.tick_array_key == runtime.address (tick_array_seeds c.pool.key start_tick_index))
    lift (
        TickArrayState.initialize default_tick_array c.pool.key c.pool.content.tick_spacing
          start_tick_index)
