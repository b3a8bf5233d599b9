-- ===== src/Manager/Pool/Seeds.antt =====
-- `ElysiumPool::seeds`, with which a pool signs for its vaults, through the pool's life.
use elysium_dex.Base.{ℕ, zero, suc, ◌+◌, ◌*◌, ◌/◌, ◌%◌, ◌<◌, ◌≡◌, arith, [], ◌∷◌}
use elysium_dex.Errors.{ok}
use elysium_dex.State.Config.{ElysiumPoolsConfig}
use elysium_dex.State.RewardInfo.{new_reward_info, initialized}
use elysium_dex.State.Pool.{
  ElysiumPool, label, key, bytes, seeds, initialize, initialize_state, update_fee_rate,
  update_protocol_fee_rate, update_rewards, update_rewards_and_liquidity, modify_reward,
  update_reward_authority, update_emissions, lowest_uninitialized, initialize_reward,
  update_after_swap, reset_protocol_fees_owed,
}
use elysium_dex.Manager.Pool.Lifetime.{
  Step, set_fee_rate, set_protocol_fee_rate, advance, modify_liquidity, set_authority,
  set_emissions, add_reward, trade, collect_protocol_fees, Steps, start, then_step,
}

-- The fields that the seeds are made of.
abbrev SameSeeds : ElysiumPool → ElysiumPool → Type 0
SameSeeds p p' =
    (p'.pools_config ≡ p.pools_config)
    × (p'.token_mint_a ≡ p.token_mint_a)
    × (p'.token_mint_b ≡ p.token_mint_b)
    × (p'.tick_spacing_seed.0 ≡ p.tick_spacing_seed.0)
    × (p'.tick_spacing_seed.1 ≡ p.tick_spacing_seed.1)
    × (p'.pool_bump ≡ p.pool_bump)

Step-SameSeeds : {p p' : ElysiumPool} → Step p p' → SameSeeds p p'
unfolding update_fee_rate update_protocol_fee_rate update_rewards update_rewards_and_liquidity
    modify_reward update_reward_authority update_emissions lowest_uninitialized initialized
    initialize_reward update_after_swap reset_protocol_fees_owed
Step-SameSeeds (set_fee_rate p p' rate e) = ground arith
Step-SameSeeds (set_protocol_fee_rate p p' rate e) = ground arith
Step-SameSeeds (advance p t r e) = ground arith
Step-SameSeeds (modify_liquidity p t liquidity r e) = ground arith
Step-SameSeeds (set_authority p p' zero authority e) = ground arith
Step-SameSeeds (set_authority p p' (suc zero) authority e) = ground arith
Step-SameSeeds (set_authority p p' (suc (suc zero)) authority e) = ground arith
Step-SameSeeds (set_authority p p' (suc (suc (suc index))) authority e) = ground arith
Step-SameSeeds (set_emissions p p' zero t emissions r e f) = ground arith
Step-SameSeeds (set_emissions p p' (suc zero) t emissions r e f) = ground arith
Step-SameSeeds (set_emissions p p' (suc (suc zero)) t emissions r e f) = ground arith
Step-SameSeeds (set_emissions p p' (suc (suc (suc index))) t emissions r e f) = ground arith
Step-SameSeeds (add_reward p p' zero mint vault ne e) = ground arith
Step-SameSeeds (add_reward p p' (suc zero) mint vault ne e) = ground arith
Step-SameSeeds (add_reward p p' (suc (suc zero)) mint vault ne e) = ground arith
Step-SameSeeds (add_reward p p' (suc (suc (suc index))) mint vault ne e) = ground arith
Step-SameSeeds (trade p liquidity tick_index price growth r fee in_a t e) = ground arith
Step-SameSeeds (collect_protocol_fees p) = ground arith

Steps-SameSeeds : (p p' : ElysiumPool) → Steps p p' → SameSeeds p p'
Steps-SameSeeds p p' start = ground arith
Steps-SameSeeds p p' (then_step {q} steps step) =
    let before = Steps-SameSeeds p q steps in let now = Step-SameSeeds step in ground arith

-- Two bytes, the lower one first, stand for a number of 16 bits.
abbrev pub IsLittleEndian : ℕ → ℕ → ℕ → Type 0
IsLittleEndian low high n = (low < 256) × (high < 256) × (low + 256 * high ≡ n)

-- In every state that a pool reaches once it has been initialised, its seeds are the word "pool",
-- the config and the mints that it was initialised with, two bytes that stand for its tick spacing,
-- lower one first, and its bump, so that it signs with the address that it was created at. The
-- tick spacing is a `u16`.
pub initialize-Steps-seeds :
    (p p' q : ElysiumPool) (config_key : ℕ) (config : ElysiumPoolsConfig)
    (bump spacing price rate mint_a vault_a mint_b vault_b : ℕ)
    → spacing < 65536
    → initialize p config_key config bump spacing price rate mint_a vault_a mint_b vault_b ≡ ok p'
    → Steps p' q
    → (low high : ℕ) × IsLittleEndian low high spacing
      × (seeds q
          ≡ label "pool"
            ∷ key config_key
            ∷ key mint_a
            ∷ key mint_b
            ∷ bytes (low ∷ high ∷ [])
            ∷ bytes (bump ∷ [])
            ∷ [])
unfolding initialize update_fee_rate update_protocol_fee_rate initialize_state new_reward_info seeds
initialize-Steps-seeds p p' q k config bump spacing price rate ma va mb vb small e steps =
    let kept = Steps-SameSeeds p' q steps in
    let set : SameSeeds
        (record p {
          pools_config = k;
          token_mint_a = ma;
          token_mint_b = mb;
          tick_spacing_seed = (spacing % 256, spacing / 256);
          pool_bump = bump;
        })
        p' =
      ground arith in
    (spacing % 256, spacing / 256, (omega arith, omega arith, omega arith), ground arith)
