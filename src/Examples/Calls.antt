-- ===== src/Examples/Calls.antt =====
-- Instructions on pools, one after the other.
use elysium_dex.Base.{◌≡◌, refl}
use elysium_dex.Base.Int.{pos, ◌+ℤ◌, ◌-ℤ◌, ◌*ℤ◌}
use elysium_dex.Math.Tick.{tick_index_from_sqrt_price}
use elysium_dex.State.RewardInfo.{new_reward_info}
use elysium_dex.State.Pool.{
  ElysiumPool, initialize, initialize_state, update_fee_rate, update_protocol_fee_rate,
}
use elysium_dex.Manager.Pool.Lifetime.{Steps, IsValid, Stays}
use elysium_dex.Instructions.Outcome.{done}
use elysium_dex.Instructions.Setup.{InitializePool, initialize_pool_handler}
use elysium_dex.Instructions.Admin.{set_fee_rate_handler, is_signed_by}
use elysium_dex.Instructions.Lifetime.{no_call, then_call, call_set_fee_rate, call_swap}
use elysium_dex.Instructions.Lifetime.Refinement.{
  Calls-Steps, initialize_pool_handler-Calls-IsValid,
}
use elysium_dex.Examples.Pools.{config, fresh}
use elysium_dex.Examples.Trades.{
  token_program, token_program-IsTransfer, holdings, owner, pool, pool_accounts, arguments,
  after_swap, result, swap_handler_runs,
}

Calls-Steps_example : Steps pool after_swap
Calls-Steps_example = Calls-Steps token_program token_program-IsTransfer pool after_swap (
    then_call no_call
      (call_swap 2 holdings pool_accounts owner arguments (pos 0) result swap_handler_runs))

abbrev creation : InitializePool
creation = record {
  pools_config = record { key = 7; content = config };
  token_mint_a = 10;
  token_mint_b = 20;
  funder = owner;
  pool_key = 50;
  bump = 255;
  token_vault_a = 11;
  token_vault_b = 21;
  fee_tier = record { pools_config = 7; tick_spacing = 8; default_fee_rate = 3000 };
}

created : initialize_pool_handler token_program creation 8 0x1_0000_0000_0000_0000 ≡ done fresh
unfolding initialize_pool_handler initialize initialize_state update_fee_rate
    update_protocol_fee_rate new_reward_info tick_index_from_sqrt_price ◌+ℤ◌ ◌-ℤ◌ ◌*ℤ◌
created = refl

abbrev dearer : ElysiumPool
dearer = record fresh { fee_rate = 10000 }

made_dearer :
    set_fee_rate_handler (record { key = 7; content = config }) fresh owner 10000 ≡ done dearer
unfolding set_fee_rate_handler is_signed_by update_fee_rate
made_dearer = refl

initialize_pool_handler-Calls-IsValid_example : IsValid dearer × Stays fresh dearer
initialize_pool_handler-Calls-IsValid_example =
    initialize_pool_handler-Calls-IsValid token_program token_program-IsTransfer creation 8
      0x1_0000_0000_0000_0000 fresh dearer created
      (then_call no_call (
        call_set_fee_rate (record { key = 7; content = config }) fresh dearer owner 10000
          made_dearer))
