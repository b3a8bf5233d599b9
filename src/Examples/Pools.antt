-- ===== src/Examples/Pools.antt =====
-- A pool from its initialisation on.
use elysium_dex.Base.{ℕ, ◌≡◌, refl, fill, arith, [], ◌∷◌}
use elysium_dex.Base.Int.{pos, ◌+ℤ◌, ◌-ℤ◌, ◌*ℤ◌}
use elysium_dex.Errors.{ok}
use elysium_dex.Math.Tick.{tick_index_from_sqrt_price}
use elysium_dex.State.Config.{ElysiumPoolsConfig}
use elysium_dex.State.RewardInfo.{new_reward_info}
use elysium_dex.State.Pool.{
  ElysiumPool, label, key, bytes, seeds, initialize, initialize_state, update_fee_rate,
  update_protocol_fee_rate,
}
use elysium_dex.Manager.Pool.Lifetime.{Steps, start, then_step, set_fee_rate, Stays, Steps-Stays}
use elysium_dex.Manager.Pool.Seeds.{IsLittleEndian, initialize-Steps-seeds}

abbrev pub config : ElysiumPoolsConfig
config = record {
  fee_authority = 1;
  collect_protocol_fees_authority = 2;
  reward_emissions_super_authority = 3;
  default_protocol_fee_rate = 300;
}

abbrev blank : ElysiumPool
blank = record {
  pools_config = 0;
  pool_bump = 0;
  tick_spacing = 0;
  tick_spacing_seed = (0, 0);
  fee_rate = 0;
  protocol_fee_rate = 0;
  liquidity = 0;
  sqrt_price = 0;
  tick_current_index = pos 0;
  protocol_fee_owed_a = 0;
  protocol_fee_owed_b = 0;
  token_mint_a = 0;
  token_vault_a = 0;
  fee_growth_global_a = 0;
  token_mint_b = 0;
  token_vault_b = 0;
  fee_growth_global_b = 0;
  reward_last_updated_timestamp = 0;
  reward_infos = fill (record {
    mint = 0;
    vault = 0;
    authority = 3;
    emissions_per_second_x64 = 0;
    growth_global_x64 = 0;
  });
}

-- The price one.
abbrev pub fresh : ElysiumPool
fresh = record blank {
  pools_config = 7;
  pool_bump = 255;
  tick_spacing = 8;
  tick_spacing_seed = (8, 0);
  fee_rate = 3000;
  protocol_fee_rate = 300;
  sqrt_price = 0x1_0000_0000_0000_0000;
  token_mint_a = 10;
  token_vault_a = 11;
  token_mint_b = 20;
  token_vault_b = 21;
}

abbrev dearer : ElysiumPool
dearer = record fresh { fee_rate = 10000 }

fresh-to-dearer : Steps fresh dearer
unfolding update_fee_rate
fresh-to-dearer = then_step start (set_fee_rate fresh dearer 10000 refl)

Steps-Stays_example : Stays fresh dearer
Steps-Stays_example = Steps-Stays fresh dearer fresh-to-dearer

initialised : initialize blank 7 config 255 8 0x1_0000_0000_0000_0000 3000 10 11 20 21 ≡ ok fresh
unfolding initialize initialize_state update_fee_rate update_protocol_fee_rate new_reward_info
    tick_index_from_sqrt_price ◌+ℤ◌ ◌-ℤ◌ ◌*ℤ◌
initialised = refl

initialize-Steps-seeds_example :
    (low high : ℕ) × IsLittleEndian low high 8
    × (seeds dearer
        ≡ label "pool" ∷ key 7 ∷ key 10 ∷ key 20 ∷ bytes (low ∷ high ∷ []) ∷ bytes (255 ∷ []) ∷ [])
initialize-Steps-seeds_example =
    initialize-Steps-seeds blank fresh dearer 7 config 255 8 0x1_0000_0000_0000_0000 3000 10 11 20
      21 (omega arith) initialised fresh-to-dearer
