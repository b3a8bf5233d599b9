-- ===== src/Program.antt =====
-- programs/elysium/src/lib.rs: the instructions of the program, and the handler that each calls.
pub mod Authorities
use elysium_dex.Base.{ℕ, Bool}
use elysium_dex.Base.Int.{ℤ}
use elysium_dex.State.Config.{ElysiumPoolsConfig}
use elysium_dex.State.FeeTier.{FeeTier}
use elysium_dex.State.Pool.{ElysiumPool}
use elysium_dex.State.Position.{Position}
use elysium_dex.State.PositionBundle.{PositionBundle}
use elysium_dex.State.TickArray.{TickArray}
use elysium_dex.Util.Authority.{Signer}
use elysium_dex.Manager.Liquidity.{LiquidityAccounts}
use elysium_dex.Instructions.Outcome.{Outcome, Account}
use elysium_dex.Instructions.Runtime.{Runtime}
use elysium_dex.Instructions.Setup.{
  InitializeFeeTier, InitializePool, InitializeReward, InitializeTickArray,
  initialize_config_handler, initialize_pool_handler, initialize_tick_array_handler,
  initialize_fee_tier_handler, initialize_reward_handler,
}
use elysium_dex.Instructions.Admin.{
  set_reward_emissions_handler, set_default_fee_rate_handler, set_default_protocol_fee_rate_handler,
  set_fee_rate_handler, set_protocol_fee_rate_handler, set_fee_authority_handler,
  set_collect_protocol_fees_authority_handler, set_reward_authority_handler,
  set_reward_authority_by_super_authority_handler, set_reward_emissions_super_authority_handler,
}
use elysium_dex.Instructions.Positions.{
  OpenPosition, ClosePosition, open_position_handler, open_position_with_metadata_handler,
  close_position_handler,
}
use elysium_dex.Instructions.Liquidity.{
  ModifyLiquidity, increase_liquidity_handler, decrease_liquidity_handler,
  update_fees_and_rewards_handler,
}
use elysium_dex.Instructions.Collect.{
  CollectFees, CollectProtocolFees, CollectReward, collect_fees_handler, collect_reward_handler,
  collect_protocol_fees_handler,
}
use elysium_dex.Instructions.Trade.{
  PoolAccounts, SwapArguments, TwoHopArguments, Traded, TradeResult, swap_handler,
  two_hop_swap_handler,
}
use elysium_dex.Instructions.Bundles.{
  InitializePositionBundle, OpenBundledPosition, CloseBundledPosition, DeletePositionBundle,
  initialize_position_bundle_handler, initialize_position_bundle_with_metadata_handler,
  delete_position_bundle_handler, open_bundled_position_handler, close_bundled_position_handler,
}

-- The `#[program]` module: an instruction with its accounts, `ctx`, and then its arguments. The
-- bumps, which Anchor finds with an address, are not among them.
pub data Instruction : Type 0 where
  initialize_config :
      (funder : Signer)
      (fee_authority collect_protocol_fees_authority reward_emissions_super_authority : ℕ)
      (default_protocol_fee_rate : ℕ)
      → Instruction
  initialize_pool : (ctx : InitializePool) (tick_spacing initial_sqrt_price : ℕ) → Instruction
  initialize_tick_array : (ctx : InitializeTickArray) (start_tick_index : ℤ) → Instruction
  initialize_fee_tier : (ctx : InitializeFeeTier) (tick_spacing default_fee_rate : ℕ) → Instruction
  initialize_reward : (ctx : InitializeReward) (reward_index : ℕ) → Instruction
  set_reward_emissions :
      (pool : ElysiumPool) (reward_authority : Signer) (reward_vault : ℕ)
      (reward_index emissions_per_second_x64 : ℕ)
      → Instruction
  open_position : (ctx : OpenPosition) (tick_lower_index tick_upper_index : ℤ) → Instruction
  open_position_with_metadata :
      (ctx : OpenPosition) (position_metadata_account metadata_update_auth : ℕ)
      (tick_lower_index tick_upper_index : ℤ)
      → Instruction
  increase_liquidity :
      (ctx : ModifyLiquidity) (liquidity_amount token_max_a token_max_b : ℕ) → Instruction
  decrease_liquidity :
      (ctx : ModifyLiquidity) (liquidity_amount token_min_a token_min_b : ℕ) → Instruction
  update_fees_and_rewards : (pool_key : ℕ) (ctx : LiquidityAccounts) → Instruction
  collect_fees : (ctx : CollectFees) → Instruction
  collect_reward : (ctx : CollectReward) (reward_index : ℕ) → Instruction
  collect_protocol_fees : (ctx : CollectProtocolFees) → Instruction
  swap :
      (ctx : PoolAccounts) (token_authority : Signer)
      (amount other_amount_threshold sqrt_price_limit : ℕ) (amount_specified_is_input a_to_b : Bool)
      → Instruction
  close_position : (ctx : ClosePosition) → Instruction
  set_default_fee_rate :
      (config : Account ElysiumPoolsConfig) (fee_tier : FeeTier) (fee_authority : Signer)
      (default_fee_rate : ℕ)
      → Instruction
  set_default_protocol_fee_rate :
      (config : ElysiumPoolsConfig) (fee_authority : Signer) (default_protocol_fee_rate : ℕ)
      → Instruction
  set_fee_rate :
      (config : Account ElysiumPoolsConfig) (pool : ElysiumPool) (fee_authority : Signer)
      (fee_rate : ℕ)
      → Instruction
  set_protocol_fee_rate :
      (config : Account ElysiumPoolsConfig) (pool : ElysiumPool) (fee_authority : Signer)
      (protocol_fee_rate : ℕ)
      → Instruction
  set_fee_authority :
      (config : ElysiumPoolsConfig) (fee_authority : Signer) (new_fee_authority : ℕ) → Instruction
  set_collect_protocol_fees_authority :
      (config : ElysiumPoolsConfig) (collect_protocol_fees_authority : Signer)
      (new_collect_protocol_fees_authority : ℕ)
      → Instruction
  set_reward_authority :
      (pool : ElysiumPool) (reward_authority : Signer) (new_reward_authority : ℕ) (reward_index : ℕ)
      → Instruction
  set_reward_authority_by_super_authority :
      (config : Account ElysiumPoolsConfig) (pool : ElysiumPool)
      (reward_emissions_super_authority : Signer) (new_reward_authority : ℕ) (reward_index : ℕ)
      → Instruction
  set_reward_emissions_super_authority :
      (config : ElysiumPoolsConfig) (reward_emissions_super_authority : Signer)
      (new_reward_emissions_super_authority : ℕ)
      → Instruction
  two_hop_swap :
      (ctx_one ctx_two : PoolAccounts) (token_authority : Signer)
      (amount other_amount_threshold : ℕ) (amount_specified_is_input a_to_b_one a_to_b_two : Bool)
      (sqrt_price_limit_one sqrt_price_limit_two : ℕ)
      → Instruction
  initialize_position_bundle : (ctx : InitializePositionBundle) → Instruction
  initialize_position_bundle_with_metadata :
      (ctx : InitializePositionBundle) (position_bundle_metadata metadata_update_auth : ℕ)
      → Instruction
  delete_position_bundle : (ctx : DeletePositionBundle) → Instruction
  open_bundled_position :
      (ctx : OpenBundledPosition) (bundle_index : ℕ) (tick_lower_index tick_upper_index : ℤ)
      → Instruction
  close_bundled_position : (ctx : CloseBundledPosition) (bundle_index : ℕ) → Instruction

module _ (Bank : Type 0) where
  -- The accounts that an instruction leaves written.
  abbrev pub Written : Instruction → Type 0
  Written (initialize_config f a b c d) = ElysiumPoolsConfig
  Written (initialize_pool c s p) = ElysiumPool
  Written (initialize_tick_array c i) = TickArray
  Written (initialize_fee_tier c s r) = FeeTier
  Written (initialize_reward c i) = ElysiumPool
  Written (set_reward_emissions p s v i e) = ElysiumPool
  Written (open_position c l u) = Bank × Position
  Written (open_position_with_metadata c m a l u) = Bank × Position
  Written (increase_liquidity c n a b) = Bank × LiquidityAccounts
  Written (decrease_liquidity c n a b) = Bank × LiquidityAccounts
  Written (update_fees_and_rewards k c) = LiquidityAccounts
  Written (collect_fees c) = Bank × Position
  Written (collect_reward c i) = Bank × Position
  Written (collect_protocol_fees c) = Bank × ElysiumPool
  Written (swap c s n o p i a) = TradeResult Bank
  Written (close_position c) = Bank
  Written (set_default_fee_rate c t s r) = FeeTier
  Written (set_default_protocol_fee_rate c s r) = ElysiumPoolsConfig
  Written (set_fee_rate c p s r) = ElysiumPool
  Written (set_protocol_fee_rate c p s r) = ElysiumPool
  Written (set_fee_authority c s n) = ElysiumPoolsConfig
  Written (set_collect_protocol_fees_authority c s n) = ElysiumPoolsConfig
  Written (set_reward_authority p s n i) = ElysiumPool
  Written (set_reward_authority_by_super_authority c p s n i) = ElysiumPool
  Written (set_reward_emissions_super_authority c s n) = ElysiumPoolsConfig
  Written (two_hop_swap c d s n o i a b p q) = Bank × Traded × Traded
  Written (initialize_position_bundle c) = Bank × PositionBundle
  Written (initialize_position_bundle_with_metadata c m a) = Bank × PositionBundle
  Written (delete_position_bundle c) = Bank
  Written (open_bundled_position c i l u) = PositionBundle × Position
  Written (close_bundled_position c i) = PositionBundle

-- The call of an instruction's handler. `time` is the `unix_timestamp` of the clock, and `fuel` the
-- rounds that a trade may take.
module _ {Bank : Type 0} (runtime : Runtime Bank) (fuel : ℕ) (bank : Bank) (time : ℤ) where
  unfoldable pub execute : (i : Instruction) → Outcome (Written Bank i)
  execute (initialize_config f a b c d) = initialize_config_handler f a b c d
  execute (initialize_pool c s p) = initialize_pool_handler runtime c s p
  execute (initialize_tick_array c i) = initialize_tick_array_handler runtime c i
  execute (initialize_fee_tier c s r) = initialize_fee_tier_handler runtime c s r
  execute (initialize_reward c i) = initialize_reward_handler c i
  execute (set_reward_emissions p s v i e) =
      set_reward_emissions_handler runtime bank p s v i e time
  execute (open_position c l u) = open_position_handler runtime bank c l u
  execute (open_position_with_metadata c m a l u) =
      open_position_with_metadata_handler runtime bank c m a l u
  execute (increase_liquidity c n a b) = increase_liquidity_handler runtime bank c n a b time
  execute (decrease_liquidity c n a b) = decrease_liquidity_handler runtime bank c n a b time
  execute (update_fees_and_rewards k c) = update_fees_and_rewards_handler k c time
  execute (collect_fees c) = collect_fees_handler runtime bank c
  execute (collect_reward c i) = collect_reward_handler runtime bank c i
  execute (collect_protocol_fees c) = collect_protocol_fees_handler runtime bank c
  execute (swap c s n o p i a) =
      swap_handler runtime fuel bank c s
        (record {
          amount = n;
          other_amount_threshold = o;
          sqrt_price_limit = p;
          amount_specified_is_input = i;
          a_to_b = a;
        })
        time
  execute (close_position c) = close_position_handler runtime bank c
  execute (set_default_fee_rate c t s r) = set_default_fee_rate_handler c t s r
  execute (set_default_protocol_fee_rate c s r) = set_default_protocol_fee_rate_handler c s r
  execute (set_fee_rate c p s r) = set_fee_rate_handler c p s r
  execute (set_protocol_fee_rate c p s r) = set_protocol_fee_rate_handler c p s r
  execute (set_fee_authority c s n) = set_fee_authority_handler c s n
  execute (set_collect_protocol_fees_authority c s n) =
      set_collect_protocol_fees_authority_handler c s n
  execute (set_reward_authority p s n i) = set_reward_authority_handler p s n i
  execute (set_reward_authority_by_super_authority c p s n i) =
      set_reward_authority_by_super_authority_handler c p s n i
  execute (set_reward_emissions_super_authority c s n) =
      set_reward_emissions_super_authority_handler c s n
  execute (two_hop_swap c d s n o i a b p q) =
      two_hop_swap_handler runtime fuel bank c d s
        (record {
          amount = n;
          other_amount_threshold = o;
          amount_specified_is_input = i;
          a_to_b_one = a;
          a_to_b_two = b;
          sqrt_price_limit_one = p;
          sqrt_price_limit_two = q;
        })
        time
  execute (initialize_position_bundle c) = initialize_position_bundle_handler runtime bank c
  execute (initialize_position_bundle_with_metadata c m a) =
      initialize_position_bundle_with_metadata_handler runtime bank c m a
  execute (delete_position_bundle c) = delete_position_bundle_handler runtime bank c
  execute (open_bundled_position c i l u) = open_bundled_position_handler runtime bank c i l u
  execute (close_bundled_position c i) = close_bundled_position_handler runtime bank c i
