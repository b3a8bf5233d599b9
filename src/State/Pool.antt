-- ===== src/State/Pool.antt =====
-- programs/elysium/src/state/pool.rs: the pool and its methods.
use Prim.Native.String.{String}
use elysium_dex.Base.{
  ℕ, ◌/◌, ◌%◌, List, [], ◌∷◌, Bool, ◌||◌, not, Option, none, some, Triple, fill, put, entry?, ltb,
  leb, ◌==◌, if◌then◌else◌,
}
use elysium_dex.Base.Int.{ℤ}
use elysium_dex.Base.Words.{add_u64}
use elysium_dex.Errors.{
  Result, ok, fail_if, unwrap, ok_or, ◌>>=◌, ◌>>◌, fee_rate_max_exceeded, invalid_reward_index,
  invalid_token_mint_order, protocol_fee_rate_max_exceeded, sqrt_price_out_of_bounds,
}
use elysium_dex.Math.Tick.{max_sqrt_price_x64, min_sqrt_price_x64, tick_index_from_sqrt_price}
use elysium_dex.Math.Token.{max_fee_rate, max_protocol_fee_rate}
use elysium_dex.State.Config.{ElysiumPoolsConfig}
use elysium_dex.State.RewardInfo.{ElysiumPoolRewardInfo, new_reward_info, initialized}

-- `pool_bump` is a byte, and `tick_spacing_seed` two, least significant first.
pub record ElysiumPool : Type 0 where
  pub pools_config : ℕ
  pub pool_bump : ℕ
  pub tick_spacing : ℕ
  pub tick_spacing_seed : ℕ × ℕ
  pub fee_rate : ℕ
  pub protocol_fee_rate : ℕ
  pub liquidity : ℕ
  pub sqrt_price : ℕ
  pub tick_current_index : ℤ
  pub protocol_fee_owed_a : ℕ
  pub protocol_fee_owed_b : ℕ
  pub token_mint_a : ℕ
  pub token_vault_a : ℕ
  pub fee_growth_global_a : ℕ
  pub token_mint_b : ℕ
  pub token_vault_b : ℕ
  pub fee_growth_global_b : ℕ
  pub reward_last_updated_timestamp : ℕ
  pub reward_infos : Triple ElysiumPoolRewardInfo

abbrev pub num_rewards : ℕ
num_rewards = 3

-- A piece of what an address is derived from: a name, a key, or bytes.
pub data Seed : Type 0 where
  label : String → Seed
  key : ℕ → Seed
  bytes : List ℕ → Seed

unfoldable pub seeds : ElysiumPool → List Seed
seeds p =
    label "pool"
    ∷ key p.pools_config
    ∷ key p.token_mint_a
    ∷ key p.token_mint_b
    ∷ bytes (p.tick_spacing_seed.0 ∷ p.tick_spacing_seed.1 ∷ [])
    ∷ bytes (p.pool_bump ∷ [])
    ∷ []

unfoldable pub update_fee_rate : ElysiumPool → ℕ → Result ElysiumPool
update_fee_rate p rate = do
  fail_if (ltb max_fee_rate rate) fee_rate_max_exceeded
  ok (record p { fee_rate = rate })

unfoldable pub update_protocol_fee_rate : ElysiumPool → ℕ → Result ElysiumPool
update_protocol_fee_rate p rate = do
  fail_if (ltb max_protocol_fee_rate rate) protocol_fee_rate_max_exceeded
  ok (record p { protocol_fee_rate = rate })

-- The rest of `initialize`, once the fee rates are set.
unfoldable pub initialize_state :
    ElysiumPool → ElysiumPoolsConfig → ℕ → ℤ → ℕ → ℕ → ℕ → ℕ → ElysiumPool
unfolding new_reward_info
initialize_state p config sqrt_price tick_index mint_a vault_a mint_b vault_b = record p {
  liquidity = 0;
  sqrt_price = sqrt_price;
  tick_current_index = tick_index;
  protocol_fee_owed_a = 0;
  protocol_fee_owed_b = 0;
  token_mint_a = mint_a;
  token_vault_a = vault_a;
  fee_growth_global_a = 0;
  token_mint_b = mint_b;
  token_vault_b = vault_b;
  fee_growth_global_b = 0;
  reward_infos = fill (new_reward_info config.reward_emissions_super_authority);
}

unfoldable pub initialize :
    ElysiumPool → ℕ → ElysiumPoolsConfig → ℕ → ℕ → ℕ → ℕ → ℕ → ℕ → ℕ → ℕ → Result ElysiumPool
unfolding initialize_state update_fee_rate update_protocol_fee_rate
initialize p config_key config bump tick_spacing sqrt_price default_fee_rate mint_a vault_a mint_b
      vault_b =
    do
      fail_if (leb mint_b mint_a) invalid_token_mint_order
      fail_if (ltb sqrt_price min_sqrt_price_x64 || ltb max_sqrt_price_x64 sqrt_price)
          sqrt_price_out_of_bounds
      p_1 ←
          update_fee_rate
            (record p {
              pools_config = config_key;
              pool_bump = bump;
              tick_spacing = tick_spacing;
              tick_spacing_seed = (tick_spacing % 256, tick_spacing / 256);
            })
            default_fee_rate
      p_2 ← update_protocol_fee_rate p_1 config.default_protocol_fee_rate
      tick_index ← tick_index_from_sqrt_price sqrt_price
      ok (initialize_state p_2 config sqrt_price tick_index mint_a vault_a mint_b vault_b)

unfoldable pub update_rewards : ElysiumPool → Triple ElysiumPoolRewardInfo → ℕ → ElysiumPool
update_rewards p reward_infos timestamp = record p {
  reward_last_updated_timestamp = timestamp;
  reward_infos = reward_infos;
}

unfoldable pub update_rewards_and_liquidity :
    ElysiumPool → Triple ElysiumPoolRewardInfo → ℕ → ℕ → ElysiumPool
unfolding update_rewards
update_rewards_and_liquidity p reward_infos liquidity timestamp =
    record (update_rewards p reward_infos timestamp) { liquidity = liquidity }

-- `self.reward_infos[index] = f(self.reward_infos[index])`
unfoldable pub modify_reward :
    ElysiumPool → ℕ → (ElysiumPoolRewardInfo → ElysiumPoolRewardInfo) → Result ElysiumPool
modify_reward p index f = do
  r ← unwrap (entry? p.reward_infos index)
  ok (record p { reward_infos = put p.reward_infos index (f r) })

unfoldable pub update_reward_authority : ElysiumPool → ℕ → ℕ → Result ElysiumPool
unfolding modify_reward
update_reward_authority p index authority = do
  fail_if (leb num_rewards index) invalid_reward_index
  modify_reward p index λ r. record r { authority = authority }

unfoldable pub update_emissions :
    ElysiumPool → ℕ → Triple ElysiumPoolRewardInfo → ℕ → ℕ → Result ElysiumPool
unfolding modify_reward update_rewards
update_emissions p index reward_infos timestamp emissions = do
  fail_if (leb num_rewards index) invalid_reward_index
  modify_reward (update_rewards p reward_infos timestamp) index
      λ r. record r { emissions_per_second_x64 = emissions }

-- `iter().position(|r| !r.initialized())`
unfoldable pub lowest_uninitialized : Triple ElysiumPoolRewardInfo → Option ℕ
unfolding initialized
lowest_uninitialized t =
    if not (initialized t.at_0)
    then some 0
    else if not (initialized t.at_1)
    then some 1
    else if not (initialized t.at_2)
    then some 2
    else none

unfoldable pub initialize_reward : ElysiumPool → ℕ → ℕ → ℕ → Result ElysiumPool
unfolding modify_reward lowest_uninitialized
initialize_reward p index mint vault = do
  fail_if (leb num_rewards index) invalid_reward_index
  lowest_index ← ok_or (lowest_uninitialized p.reward_infos) invalid_reward_index
  fail_if (not (lowest_index == index)) invalid_reward_index
  modify_reward p index λ r. record r { mint = mint; vault = vault }

unfoldable pub update_after_swap :
    ElysiumPool → ℕ → ℤ → ℕ → ℕ → Triple ElysiumPoolRewardInfo → ℕ → Bool → ℕ → ElysiumPool
update_after_swap p liquidity tick_index sqrt_price fee_growth reward_infos protocol_fee in_a
      timestamp =
    let q = record p {
      tick_current_index = tick_index;
      sqrt_price = sqrt_price;
      liquidity = liquidity;
      reward_infos = reward_infos;
      reward_last_updated_timestamp = timestamp;
    } in
    if in_a
    then record q {
      fee_growth_global_a = fee_growth;
      protocol_fee_owed_a = add_u64 p.protocol_fee_owed_a protocol_fee;
    }
    else record q {
      fee_growth_global_b = fee_growth;
      protocol_fee_owed_b = add_u64 p.protocol_fee_owed_b protocol_fee;
    }

unfoldable pub reset_protocol_fees_owed : ElysiumPool → ElysiumPool
reset_protocol_fees_owed p = record p { protocol_fee_owed_a = 0; protocol_fee_owed_b = 0 }
