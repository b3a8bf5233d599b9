-- ===== src/State/FeeTier.antt =====
-- programs/elysium/src/state/fee_tier.rs: the default fee rate of a tick spacing.
use elysium_dex.Base.{ℕ, ltb}
use elysium_dex.Errors.{Result, ok, fail_if, ◌>>◌, fee_rate_max_exceeded}
use elysium_dex.Math.Token.{max_fee_rate}

pub record FeeTier : Type 0 where
  pub pools_config : ℕ
  pub tick_spacing : ℕ
  pub default_fee_rate : ℕ

unfoldable pub update_default_fee_rate : FeeTier → ℕ → Result FeeTier
update_default_fee_rate t rate = do
  fail_if (ltb max_fee_rate rate) fee_rate_max_exceeded
  ok (record t { default_fee_rate = rate })

-- The first argument after the tier is the key of the config account.
unfoldable pub initialize : FeeTier → ℕ → ℕ → ℕ → Result FeeTier
unfolding update_default_fee_rate
initialize t config_key tick_spacing rate =
    update_default_fee_rate (record t { pools_config = config_key; tick_spacing = tick_spacing })
      rate
