-- ===== src/State/RewardInfo.antt =====
-- programs/elysium/src/state/pool.rs: `ElysiumPoolRewardInfo`.
use elysium_dex.Base.{ℕ, Bool, not, Triple, map_1, ◌==◌}

pub record ElysiumPoolRewardInfo : Type 0 where
  pub mint : ℕ
  pub vault : ℕ
  pub authority : ℕ
  pub emissions_per_second_x64 : ℕ
  pub growth_global_x64 : ℕ

-- `ElysiumPoolRewardInfo::new`
unfoldable pub new_reward_info : ℕ → ElysiumPoolRewardInfo
new_reward_info authority = record {
  mint = 0;
  vault = 0;
  authority = authority;
  emissions_per_second_x64 = 0;
  growth_global_x64 = 0;
}

-- `Pubkey::default()` is zero.
unfoldable pub initialized : ElysiumPoolRewardInfo → Bool
initialized r = not (r.mint == 0)

unfoldable pub to_reward_growths : Triple ElysiumPoolRewardInfo → Triple ℕ
to_reward_growths = map_1 λ r. r.growth_global_x64
