-- ===== src/State/Config.antt =====
-- programs/elysium/src/state/config.rs: the authorities and the default protocol fee rate.
use elysium_dex.Base.{ℕ, ltb}
use elysium_dex.Errors.{Result, ok, fail_if, ◌>>◌, protocol_fee_rate_max_exceeded}
use elysium_dex.Math.Token.{max_protocol_fee_rate}

-- A `Pubkey` is the number that its 32 bytes spell, most significant first.
pub record ElysiumPoolsConfig : Type 0 where
  pub fee_authority : ℕ
  pub collect_protocol_fees_authority : ℕ
  pub reward_emissions_super_authority : ℕ
  pub default_protocol_fee_rate : ℕ

unfoldable pub update_fee_authority : ElysiumPoolsConfig → ℕ → ElysiumPoolsConfig
update_fee_authority c authority = record c { fee_authority = authority }

unfoldable pub update_collect_protocol_fees_authority : ElysiumPoolsConfig → ℕ → ElysiumPoolsConfig
update_collect_protocol_fees_authority c authority = record c {
  collect_protocol_fees_authority = authority;
}

unfoldable pub update_reward_emissions_super_authority : ElysiumPoolsConfig → ℕ → ElysiumPoolsConfig
update_reward_emissions_super_authority c authority = record c {
  reward_emissions_super_authority = authority;
}

unfoldable pub update_default_protocol_fee_rate : ElysiumPoolsConfig → ℕ → Result ElysiumPoolsConfig
update_default_protocol_fee_rate c rate = do
  fail_if (ltb max_protocol_fee_rate rate) protocol_fee_rate_max_exceeded
  ok (record c { default_protocol_fee_rate = rate })

unfoldable pub initialize : ElysiumPoolsConfig → ℕ → ℕ → ℕ → ℕ → Result ElysiumPoolsConfig
unfolding update_default_protocol_fee_rate
initialize c fee_authority collect_authority reward_authority rate =
    update_default_protocol_fee_rate
      (record c {
        fee_authority = fee_authority;
        collect_protocol_fees_authority = collect_authority;
        reward_emissions_super_authority = reward_authority;
      })
      rate
