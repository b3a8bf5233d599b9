-- ===== src/Manager/Pool/Lifetime.antt =====
-- The pool's operations as the steps of its life, and what holds through all of them.
use elysium_dex.Base.{ℕ, zero, suc, ◌≤◌, ◌≡◌, ◌≢◌, arith, Bool, Triple}
use elysium_dex.Base.Int.{ℤ}
use elysium_dex.Base.Words.{sub_u64}
use elysium_dex.Errors.{ok}
use elysium_dex.Math.Token.{max_fee_rate, max_protocol_fee_rate}
use elysium_dex.State.Config.{ElysiumPoolsConfig}
use elysium_dex.State.RewardInfo.{ElysiumPoolRewardInfo, new_reward_info, initialized}
use elysium_dex.State.Pool.{
  ElysiumPool, initialize, initialize_state, update_fee_rate, update_protocol_fee_rate,
  update_rewards, update_rewards_and_liquidity, modify_reward, update_reward_authority,
  update_emissions, lowest_uninitialized, initialize_reward, update_after_swap,
  reset_protocol_fees_owed,
}
use elysium_dex.Manager.Pool.{next_reward_info, next_pool_reward_infos}

-- One call of an operation. The new rewards of a call are those of `next_pool_reward_infos`, as all
-- of the program's callers pass them, and a reward's mint is an account, so that it is not zero.
pub data Step : ElysiumPool → ElysiumPool → Type 0 where
  set_fee_rate : (p p' : ElysiumPool) (rate : ℕ) → update_fee_rate p rate ≡ ok p' → Step p p'
  set_protocol_fee_rate :
      (p p' : ElysiumPool) (rate : ℕ) → update_protocol_fee_rate p rate ≡ ok p' → Step p p'
  advance :
      (p : ElysiumPool) (t : ℕ) (r : Triple ElysiumPoolRewardInfo)
      → next_pool_reward_infos p t ≡ ok r
      → Step p (update_rewards p r t)
  modify_liquidity :
      (p : ElysiumPool) (t liquidity : ℕ) (r : Triple ElysiumPoolRewardInfo)
      → next_pool_reward_infos p t ≡ ok r
      → Step p (update_rewards_and_liquidity p r liquidity t)
  set_authority :
      (p p' : ElysiumPool) (index authority : ℕ)
      → update_reward_authority p index authority ≡ ok p'
      → Step p p'
  set_emissions :
      (p p' : ElysiumPool) (index t emissions : ℕ) (r : Triple ElysiumPoolRewardInfo)
      → next_pool_reward_infos p t ≡ ok r
      → update_emissions p index r t emissions ≡ ok p'
      → Step p p'
  add_reward :
      (p p' : ElysiumPool) (index mint vault : ℕ)
      → mint ≢ 0
      → initialize_reward p index mint vault ≡ ok p'
      → Step p p'
  trade :
      (p : ElysiumPool) (liquidity : ℕ) (tick_index : ℤ) (price growth : ℕ)
      (r : Triple ElysiumPoolRewardInfo) (fee : ℕ) (in_a : Bool) (t : ℕ)
      → next_pool_reward_infos p t ≡ ok r
      → Step p (update_after_swap p liquidity tick_index price growth r fee in_a t)
  collect_protocol_fees : (p : ElysiumPool) → Step p (reset_protocol_fees_owed p)

pub data Steps (p : ElysiumPool) : ElysiumPool → Type 0 where
  start : Steps p p
  then_step : {q q' : ElysiumPool} → Steps p q → Step q q' → Steps p q'

-- Only the first rewards are initialised, and the fee rates are within their bounds.
abbrev pub IsValid : ElysiumPool → Type 0
IsValid p =
    (p.fee_rate ≤ max_fee_rate)
    × (p.protocol_fee_rate ≤ max_protocol_fee_rate)
    × (p.reward_infos.at_0.mint ≡ 0 → p.reward_infos.at_1.mint ≡ 0)
    × (p.reward_infos.at_1.mint ≡ 0 → p.reward_infos.at_2.mint ≡ 0)

-- A reward that is initialised keeps its mint and its vault.
abbrev pub RewardStays : ElysiumPoolRewardInfo → ElysiumPoolRewardInfo → Type 0
RewardStays r r' = r.mint ≢ 0 → (r'.mint ≡ r.mint) × (r'.vault ≡ r.vault)

-- What never changes, and the clock that never goes back.
abbrev pub Stays : ElysiumPool → ElysiumPool → Type 0
Stays p p' =
    (p'.tick_spacing ≡ p.tick_spacing)
    × (p'.token_mint_a ≡ p.token_mint_a)
    × (p'.token_mint_b ≡ p.token_mint_b)
    × (p'.token_vault_a ≡ p.token_vault_a)
    × (p'.token_vault_b ≡ p.token_vault_b)
    × (p.reward_last_updated_timestamp ≤ p'.reward_last_updated_timestamp)
    × RewardStays p.reward_infos.at_0 p'.reward_infos.at_0
    × RewardStays p.reward_infos.at_1 p'.reward_infos.at_1
    × RewardStays p.reward_infos.at_2 p'.reward_infos.at_2

abbrev SameToken : ElysiumPoolRewardInfo → ElysiumPoolRewardInfo → Type 0
SameToken r r' = (r'.mint ≡ r.mint) × (r'.vault ≡ r.vault)

next_reward_info-SameToken :
    (d l : ℕ) (r r' : ElysiumPoolRewardInfo) → next_reward_info d l r ≡ ok r' → SameToken r r'
unfolding next_reward_info
next_reward_info-SameToken d l r r' e = ground arith

next_pool_reward_infos-SameToken :
    (p : ElysiumPool) (t : ℕ) (r : Triple ElysiumPoolRewardInfo)
    → next_pool_reward_infos p t ≡ ok r
    → (p.reward_last_updated_timestamp ≤ t)
      × SameToken p.reward_infos.at_0 r.at_0
      × SameToken p.reward_infos.at_1 r.at_1
      × SameToken p.reward_infos.at_2 r.at_2
unfolding next_pool_reward_infos
next_pool_reward_infos-SameToken p t r e =
    let d = sub_u64 t p.reward_last_updated_timestamp in
    let same = next_reward_info-SameToken d p.liquidity in
    ground (
      arith,
      same p.reward_infos.at_0 r.at_0,
      same p.reward_infos.at_1 r.at_1,
      same p.reward_infos.at_2 r.at_2,
    )

Step-Stays : {p p' : ElysiumPool} → Step p p' → Stays p p'
unfolding update_fee_rate update_protocol_fee_rate update_rewards update_rewards_and_liquidity
    modify_reward update_reward_authority update_emissions lowest_uninitialized initialized
    initialize_reward update_after_swap reset_protocol_fees_owed
Step-Stays (set_fee_rate p p' rate e) = ground arith
Step-Stays (set_protocol_fee_rate p p' rate e) = ground arith
Step-Stays (advance p t r e) = ground (arith, next_pool_reward_infos-SameToken p t r e)
Step-Stays (modify_liquidity p t liquidity r e) =
    ground (arith, next_pool_reward_infos-SameToken p t r e)
Step-Stays (set_authority p p' zero authority e) = ground arith
Step-Stays (set_authority p p' (suc zero) authority e) = ground arith
Step-Stays (set_authority p p' (suc (suc zero)) authority e) = ground arith
Step-Stays (set_authority p p' (suc (suc (suc index))) authority e) = ground arith
Step-Stays (set_emissions p p' zero t emissions r e f) =
    ground (arith, next_pool_reward_infos-SameToken p t r e)
Step-Stays (set_emissions p p' (suc zero) t emissions r e f) =
    ground (arith, next_pool_reward_infos-SameToken p t r e)
Step-Stays (set_emissions p p' (suc (suc zero)) t emissions r e f) =
    ground (arith, next_pool_reward_infos-SameToken p t r e)
Step-Stays (set_emissions p p' (suc (suc (suc index))) t emissions r e f) =
    ground (arith, next_pool_reward_infos-SameToken p t r e)
Step-Stays (add_reward p p' zero mint vault ne e) = ground arith
Step-Stays (add_reward p p' (suc zero) mint vault ne e) = ground arith
Step-Stays (add_reward p p' (suc (suc zero)) mint vault ne e) = ground arith
Step-Stays (add_reward p p' (suc (suc (suc index))) mint vault ne e) = ground arith
Step-Stays (trade p liquidity tick_index price growth r fee in_a t e) =
    ground (arith, next_pool_reward_infos-SameToken p t r e)
Step-Stays (collect_protocol_fees p) = ground arith

Step-IsValid : {p p' : ElysiumPool} → Step p p' → IsValid p → IsValid p'
unfolding update_fee_rate update_protocol_fee_rate update_rewards update_rewards_and_liquidity
    modify_reward update_reward_authority update_emissions lowest_uninitialized initialized
    initialize_reward update_after_swap reset_protocol_fees_owed
Step-IsValid (set_fee_rate p p' rate e) = ground arith
Step-IsValid (set_protocol_fee_rate p p' rate e) = ground arith
Step-IsValid (advance p t r e) = ground (arith, next_pool_reward_infos-SameToken p t r e)
Step-IsValid (modify_liquidity p t liquidity r e) =
    ground (arith, next_pool_reward_infos-SameToken p t r e)
Step-IsValid (set_authority p p' zero authority e) = ground arith
Step-IsValid (set_authority p p' (suc zero) authority e) = ground arith
Step-IsValid (set_authority p p' (suc (suc zero)) authority e) = ground arith
Step-IsValid (set_authority p p' (suc (suc (suc index))) authority e) = ground arith
Step-IsValid (set_emissions p p' zero t emissions r e f) =
    ground (arith, next_pool_reward_infos-SameToken p t r e)
Step-IsValid (set_emissions p p' (suc zero) t emissions r e f) =
    ground (arith, next_pool_reward_infos-SameToken p t r e)
Step-IsValid (set_emissions p p' (suc (suc zero)) t emissions r e f) =
    ground (arith, next_pool_reward_infos-SameToken p t r e)
Step-IsValid (set_emissions p p' (suc (suc (suc index))) t emissions r e f) =
    ground (arith, next_pool_reward_infos-SameToken p t r e)
Step-IsValid (add_reward p p' zero mint vault ne e) = ground arith
Step-IsValid (add_reward p p' (suc zero) mint vault ne e) = ground arith
Step-IsValid (add_reward p p' (suc (suc zero)) mint vault ne e) = ground arith
Step-IsValid (add_reward p p' (suc (suc (suc index))) mint vault ne e) = ground arith
Step-IsValid (trade p liquidity tick_index price growth r fee in_a t e) =
    ground (arith, next_pool_reward_infos-SameToken p t r e)
Step-IsValid (collect_protocol_fees p) = ground arith

Stays-trans : (p q r : ElysiumPool) → Stays p q → Stays q r → Stays p r
Stays-trans p q r a b = ground arith

-- Through every sequence of operations a pool keeps its tick spacing, its mints and its vaults, an
-- initialised reward keeps its mint and its vault, and the time of the last update never goes back.
pub Steps-Stays : (p p' : ElysiumPool) → Steps p p' → Stays p p'
Steps-Stays p p' start = ground arith
Steps-Stays p p' (then_step {q} steps step) =
    Stays-trans p q p' (Steps-Stays p q steps) (Step-Stays step)

initialize-IsValid :
    (p p' : ElysiumPool) (key : ℕ) (config : ElysiumPoolsConfig)
    (bump spacing price rate mint_a vault_a mint_b vault_b : ℕ)
    → initialize p key config bump spacing price rate mint_a vault_a mint_b vault_b ≡ ok p'
    → IsValid p'
unfolding initialize update_fee_rate update_protocol_fee_rate initialize_state new_reward_info
initialize-IsValid p p' key config bump spacing price rate mint_a vault_a mint_b vault_b e =
    ground arith

-- In every state that a pool reaches once it has been initialised, both fee rates are within their
-- bounds, and the initialised rewards are the first ones.
pub initialize-Steps-IsValid :
    (p p' q : ElysiumPool) (key : ℕ) (config : ElysiumPoolsConfig)
    (bump spacing price rate mint_a vault_a mint_b vault_b : ℕ)
    → initialize p key config bump spacing price rate mint_a vault_a mint_b vault_b ≡ ok p'
    → Steps p' q
    → IsValid q
initialize-Steps-IsValid p p' q key config bump spacing price rate ma va mb vb e start =
    initialize-IsValid p p' key config bump spacing price rate ma va mb vb e
initialize-Steps-IsValid p p' q key config bump spacing price rate ma va mb vb e
      (then_step {q = x} s step) =
    Step-IsValid step
      (initialize-Steps-IsValid p p' x key config bump spacing price rate ma va mb vb e s)
