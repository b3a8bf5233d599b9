-- ===== src/Manager/Tick/Crossing.antt =====
-- Crossing a tick: the two sides of a tick swap their growth, and no range sees a difference.
use elysium_dex.Base.{
  ℕ, ◌+◌, ◌%◌, ◌<◌, ◌≡◌, refl, ◌⊎◌, inl, inr, Triple, arith, true, false, by_branch,
}
use elysium_dex.Base.Words.{u128_mod, sub_u128}
use elysium_dex.Errors.{ok, ◌>>=◌}
use elysium_dex.State.RewardInfo.{ElysiumPoolRewardInfo, initialized}
use elysium_dex.State.Tick.{Tick, TickUpdate, update, update_from}
use elysium_dex.Manager.Tick.{cross_reward, next_tick_cross_update}

-- Every growth outside the tick is a `u128`.
pub record GrowthsFit (tick : Tick) : Type 0 where
  pub fee_a : tick.fee_growth_outside_a < u128_mod
  pub fee_b : tick.fee_growth_outside_b < u128_mod
  pub reward_0 : tick.reward_growths_outside.at_0 < u128_mod
  pub reward_1 : tick.reward_growths_outside.at_1 < u128_mod
  pub reward_2 : tick.reward_growths_outside.at_2 < u128_mod

pub record RewardsFit (r : Triple ElysiumPoolRewardInfo) : Type 0 where
  pub growth_0 : r.at_0.growth_global_x64 < u128_mod
  pub growth_1 : r.at_1.growth_global_x64 < u128_mod
  pub growth_2 : r.at_2.growth_global_x64 < u128_mod

pub sub_u128-sub_u128 : (a b : ℕ) → a < u128_mod → b < u128_mod → sub_u128 a (sub_u128 a b) ≡ b
sub_u128-sub_u128 a b ha hb = omega arith

cross_reward-cross_reward :
    (r : ElysiumPoolRewardInfo) (g : ℕ)
    → r.growth_global_x64 < u128_mod
    → g < u128_mod
    → cross_reward r (cross_reward r g) ≡ g
unfolding cross_reward initialized
cross_reward-cross_reward r g hr hg = ground (arith, sub_u128-sub_u128 r.growth_global_x64 g hr hg)

-- Crossing twice at the same global growths leaves the tick as it was.
cross_twice :
    (tick : Tick) (global_a global_b : ℕ) (r : Triple ElysiumPoolRewardInfo)
    → GrowthsFit tick
    → RewardsFit r
    → global_a < u128_mod
    → global_b < u128_mod
    → (next_tick_cross_update tick global_a global_b r >>= λ u.
        next_tick_cross_update (update tick u) global_a global_b r)
      ≡ ok (update_from tick)
unfolding next_tick_cross_update update update_from
cross_twice tick global_a global_b r ht hr ha hb = cc (
  sub_u128-sub_u128 global_a tick.fee_growth_outside_a ha ht.fee_a,
  sub_u128-sub_u128 global_b tick.fee_growth_outside_b hb ht.fee_b,
  cross_reward-cross_reward r.at_0 tick.reward_growths_outside.at_0 hr.growth_0 ht.reward_0,
  cross_reward-cross_reward r.at_1 tick.reward_growths_outside.at_1 hr.growth_1 ht.reward_1,
  cross_reward-cross_reward r.at_2 tick.reward_growths_outside.at_2 hr.growth_2 ht.reward_2,
)

-- Two sides of a tick: what lies outside before and after it is crossed adds up to the whole growth.
abbrev pub AreSides : (whole before after : ℕ) → Type 0
AreSides whole before after = (after < u128_mod) × ((before + after) % u128_mod ≡ whole)

-- A reward that is in use changes its side, and another keeps what it has.
abbrev pub CrossesReward : ElysiumPoolRewardInfo → (before after : ℕ) → Type 0
CrossesReward r before after =
    ((initialized r ≡ true) × AreSides r.growth_global_x64 before after)
    ⊎ ((initialized r ≡ false) × (after ≡ before))

-- An update that crosses the tick: the fees and the rewards in use change their sides, and the rest
-- stays as it is.
pub record Crosses (tick : Tick) (a b : ℕ) (r : Triple ElysiumPoolRewardInfo) (u : TickUpdate)
    : Type 0 where
  pub fee_a : AreSides a tick.fee_growth_outside_a u.fee_growth_outside_a
  pub fee_b : AreSides b tick.fee_growth_outside_b u.fee_growth_outside_b
  pub reward_0 : CrossesReward r.at_0 tick.reward_growths_outside.at_0 u.reward_growths_outside.at_0
  pub reward_1 : CrossesReward r.at_1 tick.reward_growths_outside.at_1 u.reward_growths_outside.at_1
  pub reward_2 : CrossesReward r.at_2 tick.reward_growths_outside.at_2 u.reward_growths_outside.at_2
  pub same_initialized : u.initialized ≡ tick.initialized
  pub same_net : u.liquidity_net ≡ tick.liquidity_net
  pub same_gross : u.liquidity_gross ≡ tick.liquidity_gross

sub_u128-AreSides : (a b : ℕ) → a < u128_mod → b < u128_mod → AreSides a b (sub_u128 a b)
sub_u128-AreSides a b ha hb = (omega arith, omega arith)

cross_reward-CrossesReward :
    (r : ElysiumPoolRewardInfo) (g : ℕ)
    → r.growth_global_x64 < u128_mod
    → g < u128_mod
    → CrossesReward r g (cross_reward r g)
unfolding cross_reward
cross_reward-CrossesReward r g hr hg =
    by_branch (CrossesReward r g) (initialized r)
      (λ used. inl (used, sub_u128-AreSides r.growth_global_x64 g hr hg))
      λ unused. inr (unused, refl)

-- Crossing a tick, with growths that are all `u128`: the call returns, each fee growth outside is
-- what the global growth and the one outside before leave, modulo 2^128, the same for each reward
-- that is in use while another stays, the liquidity and the flag stay, and crossing the tick again
-- at the same global growths restores it.
pub next_tick_cross_update-Crosses :
    (tick : Tick) (global_a global_b : ℕ) (r : Triple ElysiumPoolRewardInfo)
    → GrowthsFit tick
    → RewardsFit r
    → global_a < u128_mod
    → global_b < u128_mod
    → (u : TickUpdate) × (next_tick_cross_update tick global_a global_b r ≡ ok u)
      × Crosses tick global_a global_b r u
      × (next_tick_cross_update (update tick u) global_a global_b r ≡ ok (update_from tick))
unfolding next_tick_cross_update update_from
next_tick_cross_update-Crosses tick a b r ht hr ha hb = (
  _,
  refl,
  record {
    fee_a = sub_u128-AreSides a tick.fee_growth_outside_a ha ht.fee_a;
    fee_b = sub_u128-AreSides b tick.fee_growth_outside_b hb ht.fee_b;
    reward_0 =
        cross_reward-CrossesReward r.at_0 tick.reward_growths_outside.at_0 hr.growth_0 ht.reward_0;
    reward_1 =
        cross_reward-CrossesReward r.at_1 tick.reward_growths_outside.at_1 hr.growth_1 ht.reward_1;
    reward_2 =
        cross_reward-CrossesReward r.at_2 tick.reward_growths_outside.at_2 hr.growth_2 ht.reward_2;
    same_initialized = refl;
    same_net = refl;
    same_gross = refl;
  },
  cross_twice tick a b r ht hr ha hb,
)
