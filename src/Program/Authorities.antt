-- ===== src/Program/Authorities.antt =====
-- Who has to have signed an instruction of the program.
use elysium_dex.Base.{ℕ, ◌≡◌, arith, ◌&&◌, ◌==◌, Bool, true, Option, none, some, entry?, ap}
use elysium_dex.Base.Int.{ℤ}
use elysium_dex.Errors.{unwrap}
use elysium_dex.State.RewardInfo.{ElysiumPoolRewardInfo}
use elysium_dex.State.Pool.{ElysiumPool}
use elysium_dex.State.Config.{ElysiumPoolsConfig}
use elysium_dex.Util.Authority.{Signer}
use elysium_dex.Instructions.Outcome.{
  Outcome, Account, done, require, lift, bind_finishes, require_holds, done_injective, ◌>>=◌, ◌>>◌,
}
use elysium_dex.Instructions.Runtime.{
  Runtime, pool_nft_update_auth, pool_seeds, tick_array_seeds, fee_tier_seeds,
  position_bundle_seeds,
}
use elysium_dex.Instructions.Setup.{
  initialize_config_handler, initialize_pool_handler, initialize_tick_array_handler,
  initialize_fee_tier_handler, initialize_reward_handler,
}
use elysium_dex.Instructions.Admin.{
  is_signed_by, set_reward_emissions_handler, set_default_fee_rate_handler,
  set_default_protocol_fee_rate_handler, set_fee_rate_handler, set_protocol_fee_rate_handler,
  set_fee_authority_handler, set_collect_protocol_fees_authority_handler,
  set_reward_authority_handler, set_reward_authority_by_super_authority_handler,
  set_reward_emissions_super_authority_handler,
}
use elysium_dex.Instructions.Positions.{
  open_position_constraints, open_position_handler, open_position_with_metadata_handler,
}
use elysium_dex.Instructions.Collect.{
  collect_protocol_fees_constraints, collect_protocol_fees_handler,
}
use elysium_dex.Instructions.Trade.{pool_constraints, swap_handler, two_hop_swap_handler}
use elysium_dex.Instructions.Bundles.{
  holds_bundle, delete_bundle_constraints, initialize_position_bundle_handler,
  initialize_position_bundle_with_metadata_handler, delete_position_bundle_handler,
}
use elysium_dex.Instructions.Signed.{
  IsHolder, PositionCall-IsHolder, increases_liquidity, decreases_liquidity, collects_fees,
  collects_reward, closes_position, opens_bundled_position, closes_bundled_position,
}
use elysium_dex.Program.{
  Instruction, Written, execute, initialize_config, initialize_pool, initialize_tick_array,
  initialize_fee_tier, initialize_reward, set_reward_emissions, open_position,
  open_position_with_metadata, increase_liquidity, decrease_liquidity, update_fees_and_rewards,
  collect_fees, collect_reward, collect_protocol_fees, swap, close_position, set_default_fee_rate,
  set_default_protocol_fee_rate, set_fee_rate, set_protocol_fee_rate, set_fee_authority,
  set_collect_protocol_fees_authority, set_reward_authority,
  set_reward_authority_by_super_authority, set_reward_emissions_super_authority, two_hop_swap,
  initialize_position_bundle, initialize_position_bundle_with_metadata, delete_position_bundle,
  open_bundled_position, close_bundled_position,
}

-- The signer has signed, and is of this key.
abbrev IsSignedBy : Signer → ℕ → Type 0
IsSignedBy s authority = (s.is_signer ≡ true) × (s.key ≡ authority)

-- The signer is the authority of one of the pool's rewards.
abbrev HasReward : ElysiumPool → ℕ → Signer → Type 0
HasReward pool index s =
    (reward : ElysiumPoolRewardInfo) × (entry? pool.reward_infos index ≡ some reward)
    × IsSignedBy s reward.authority

-- An account names the config, and the signer has the key.
abbrev IsUnder : (named : ℕ) → Account ElysiumPoolsConfig → Signer → ℕ → Type 0
IsUnder named config s authority = (named ≡ config.key) × IsSignedBy s authority

module _ {Bank : Type 0} (runtime : Runtime Bank) (bank : Bank) where
  -- What the instruction needs of its signers.
  abbrev pub IsAuthorized : Instruction → Type 0
  IsAuthorized (initialize_config f a b c d) = f.is_signer ≡ true
  IsAuthorized (initialize_pool c s p) = c.funder.is_signer ≡ true
  IsAuthorized (initialize_tick_array c i) = c.funder.is_signer ≡ true
  IsAuthorized (initialize_fee_tier c s r) =
      (c.funder.is_signer ≡ true) × IsSignedBy c.fee_authority c.config.content.fee_authority
  IsAuthorized (initialize_reward c i) =
      (c.funder.is_signer ≡ true) × HasReward c.pool i c.reward_authority
  IsAuthorized (set_reward_emissions p s v i e) = HasReward p i s
  IsAuthorized (open_position c l u) = c.funder.is_signer ≡ true
  IsAuthorized (open_position_with_metadata c m a l u) = c.funder.is_signer ≡ true
  IsAuthorized (increase_liquidity c n a b) =
      IsHolder runtime bank c.position_authority c.position_token_account
        c.accounts.position.position_mint
  IsAuthorized (decrease_liquidity c n a b) =
      IsHolder runtime bank c.position_authority c.position_token_account
        c.accounts.position.position_mint
  IsAuthorized (update_fees_and_rewards k c) = Unit
  IsAuthorized (collect_fees c) =
      IsHolder runtime bank c.position_authority c.position_token_account c.position.position_mint
  IsAuthorized (collect_reward c i) =
      IsHolder runtime bank c.position_authority c.position_token_account c.position.position_mint
  IsAuthorized (collect_protocol_fees c) =
      IsUnder c.pool.content.pools_config c.pools_config c.collect_protocol_fees_authority
        c.pools_config.content.collect_protocol_fees_authority
  IsAuthorized (swap c s n o p i a) = s.is_signer ≡ true
  IsAuthorized (close_position c) =
      IsHolder runtime bank c.position_authority c.position_token_account
        c.position.content.position_mint
  IsAuthorized (set_default_fee_rate c t s r) = IsUnder t.pools_config c s c.content.fee_authority
  IsAuthorized (set_default_protocol_fee_rate c s r) = IsSignedBy s c.fee_authority
  IsAuthorized (set_fee_rate c p s r) = IsUnder p.pools_config c s c.content.fee_authority
  IsAuthorized (set_protocol_fee_rate c p s r) = IsUnder p.pools_config c s c.content.fee_authority
  IsAuthorized (set_fee_authority c s n) = IsSignedBy s c.fee_authority
  IsAuthorized (set_collect_protocol_fees_authority c s n) =
      IsSignedBy s c.collect_protocol_fees_authority
  IsAuthorized (set_reward_authority p s n i) = HasReward p i s
  IsAuthorized (set_reward_authority_by_super_authority c p s n i) =
      IsUnder p.pools_config c s c.content.reward_emissions_super_authority
  IsAuthorized (set_reward_emissions_super_authority c s n) =
      IsSignedBy s c.reward_emissions_super_authority
  IsAuthorized (two_hop_swap c d s n o i a b p q) = s.is_signer ≡ true
  IsAuthorized (initialize_position_bundle c) = c.funder.is_signer ≡ true
  IsAuthorized (initialize_position_bundle_with_metadata c m a) = c.funder.is_signer ≡ true
  IsAuthorized (delete_position_bundle c) =
      IsSignedBy c.position_bundle_owner
        (runtime.token_account bank c.position_bundle_token_account).owner
      × ((runtime.token_account bank c.position_bundle_token_account).mint
          ≡ c.position_bundle.position_bundle_mint)
      × ((runtime.token_account bank c.position_bundle_token_account).amount ≡ 1)
  IsAuthorized (open_bundled_position c i l u) =
      IsHolder runtime bank c.position_bundle_authority c.position_bundle_token_account
        c.position_bundle.position_bundle_mint
  IsAuthorized (close_bundled_position c i) =
      IsHolder runtime bank c.position_bundle_authority c.position_bundle_token_account
        c.position_bundle.position_bundle_mint

-- A sequence that finishes has passed its first test.
guarded :
    {A : Type 0} (test : Bool) (rest : Outcome A) {a : A}
    → (require test >> rest) ≡ done a
    → test ≡ true
guarded test rest e = let (u, p, e1) = bind_finishes (require test) _ e in require_holds test p

found : {A : Type 0} (o : Option A) {a : A} → lift (unwrap o) ≡ done a → o ≡ some a
found none e = cc
found (some a) e = ap some (done_injective e)

-- The reward that a sequence looks up first, and its test.
reward_guarded :
    {A : Type 0} (pool : ElysiumPool) (index : ℕ) (test : ElysiumPoolRewardInfo → Bool)
    (rest : ElysiumPoolRewardInfo → Outcome A) {a : A}
    → (lift (unwrap (entry? pool.reward_infos index)) >>= λ reward.
        (require (test reward) >> rest reward))
      ≡ done a
    → (reward : ElysiumPoolRewardInfo) × (entry? pool.reward_infos index ≡ some reward)
      × (test reward ≡ true)
reward_guarded pool index test rest e =
    let (reward, q, e1) = bind_finishes (lift (unwrap (entry? pool.reward_infos index))) _ e in
    let (u, p, e2) = bind_finishes (require (test reward)) _ e1 in
    (reward, found _ q, require_holds _ p)

module _ {Bank : Type 0} (runtime : Runtime Bank) (fuel : ℕ) (bank : Bank) (time : ℤ) where
  -- An instruction of the program that finishes has been signed by whom it needs: the authority
  -- that its config or its reward names, the holder of a position's or a bundle's token, the owner
  -- of a bundle that is deleted, or, where it takes nobody's money but the signer's, any signer.
  -- `update_fees_and_rewards` alone needs no signature.
  pub execute-IsAuthorized :
      (i : Instruction) (w : Written Bank i)
      → execute runtime fuel bank time i ≡ done w
      → IsAuthorized runtime bank i
  unfolding execute is_signed_by initialize_config_handler initialize_pool_handler
      initialize_tick_array_handler initialize_fee_tier_handler initialize_reward_handler
      set_reward_emissions_handler set_default_fee_rate_handler
      set_default_protocol_fee_rate_handler set_fee_rate_handler set_protocol_fee_rate_handler
      set_fee_authority_handler set_collect_protocol_fees_authority_handler
      set_reward_authority_handler set_reward_authority_by_super_authority_handler
      set_reward_emissions_super_authority_handler open_position_constraints open_position_handler
      open_position_with_metadata_handler collect_protocol_fees_constraints
      collect_protocol_fees_handler swap_handler two_hop_swap_handler holds_bundle
      delete_bundle_constraints delete_position_bundle_handler initialize_position_bundle_handler
      initialize_position_bundle_with_metadata_handler
  execute-IsAuthorized (initialize_config f a b c d) w e = guarded (f.is_signer) _ e
  execute-IsAuthorized (initialize_pool c s p) w e =
      let h =
        guarded
          (c.funder.is_signer
            && c.pool_key
              == runtime.address (pool_seeds c.pools_config.key c.token_mint_a c.token_mint_b s)
            && c.fee_tier.pools_config == c.pools_config.key)
          _ e in
      ground arith
  execute-IsAuthorized (initialize_tick_array c i) w e =
      let h =
        guarded
          (c.funder.is_signer
            && c.tick_array_key == runtime.address (tick_array_seeds c.pool.key i))
          _ e in
      ground arith
  execute-IsAuthorized (initialize_fee_tier c s r) w e =
      let h =
        guarded
          (c.funder.is_signer
            && c.fee_tier_key == runtime.address (fee_tier_seeds c.config.key s)
            && c.fee_authority.is_signer
            && c.fee_authority.key == c.config.content.fee_authority)
          _ e in
      ground arith
  execute-IsAuthorized (initialize_reward c i) w e =
      let (reward, q, h) =
        reward_guarded c.pool i
          (λ r.
            c.reward_authority.is_signer
            && c.reward_authority.key == r.authority
            && c.funder.is_signer)
          _ e in
      (ground arith, (reward, q, ground arith))
  execute-IsAuthorized (set_reward_emissions p s v i m) w e =
      let (reward, q, h) =
        reward_guarded p i (λ r. is_signed_by s r.authority && v == r.vault) _ e in
      (reward, q, ground arith)
  execute-IsAuthorized (open_position c l u) w e =
      let h = guarded (open_position_constraints runtime c) _ e in ground arith
  execute-IsAuthorized (open_position_with_metadata c m a l u) w e =
      let h = guarded (open_position_constraints runtime c && a == pool_nft_update_auth) _ e in
      ground arith
  execute-IsAuthorized (increase_liquidity c n a b) w e =
      PositionCall-IsHolder runtime bank _ _ _ (increases_liquidity c n a b time w e)
  execute-IsAuthorized (decrease_liquidity c n a b) w e =
      PositionCall-IsHolder runtime bank _ _ _ (decreases_liquidity c n a b time w e)
  execute-IsAuthorized (update_fees_and_rewards k c) w e = tt
  execute-IsAuthorized (collect_fees c) w e =
      PositionCall-IsHolder runtime bank _ _ _ (collects_fees c w e)
  execute-IsAuthorized (collect_reward c i) w e =
      PositionCall-IsHolder runtime bank _ _ _ (collects_reward c i w e)
  execute-IsAuthorized (collect_protocol_fees c) w e =
      let h = guarded (collect_protocol_fees_constraints runtime bank c) _ e in ground arith
  execute-IsAuthorized (swap c s n o p i a) w e =
      let h = guarded (s.is_signer && pool_constraints runtime bank c) _ e in ground arith
  execute-IsAuthorized (close_position c) w e =
      PositionCall-IsHolder runtime bank _ _ _ (closes_position c w e)
  execute-IsAuthorized (set_default_fee_rate c t s r) w e =
      let h = guarded (t.pools_config == c.key && is_signed_by s c.content.fee_authority) _ e in
      ground arith
  execute-IsAuthorized (set_default_protocol_fee_rate c s r) w e =
      let h = guarded (is_signed_by s c.fee_authority) _ e in ground arith
  execute-IsAuthorized (set_fee_rate c p s r) w e =
      let h = guarded (p.pools_config == c.key && is_signed_by s c.content.fee_authority) _ e in
      ground arith
  execute-IsAuthorized (set_protocol_fee_rate c p s r) w e =
      let h = guarded (p.pools_config == c.key && is_signed_by s c.content.fee_authority) _ e in
      ground arith
  execute-IsAuthorized (set_fee_authority c s n) w e =
      let h = guarded (is_signed_by s c.fee_authority) _ e in ground arith
  execute-IsAuthorized (set_collect_protocol_fees_authority c s n) w e =
      let h = guarded (is_signed_by s c.collect_protocol_fees_authority) _ e in ground arith
  execute-IsAuthorized (set_reward_authority p s n i) w e =
      let (reward, q, h) = reward_guarded p i (λ r. is_signed_by s r.authority) _ e in
      (reward, q, ground arith)
  execute-IsAuthorized (set_reward_authority_by_super_authority c p s n i) w e =
      let h =
        guarded
          (p.pools_config == c.key && is_signed_by s c.content.reward_emissions_super_authority) _
          e in
      ground arith
  execute-IsAuthorized (set_reward_emissions_super_authority c s n) w e =
      let h = guarded (is_signed_by s c.reward_emissions_super_authority) _ e in ground arith
  execute-IsAuthorized (two_hop_swap c d s n o i a b p q) w e =
      let h =
        guarded (s.is_signer && pool_constraints runtime bank c && pool_constraints runtime bank d)
          _ e in
      ground arith
  execute-IsAuthorized (initialize_position_bundle c) w e =
      let h =
        guarded
          (c.funder.is_signer
            && c.position_bundle_key
              == runtime.address (position_bundle_seeds c.position_bundle_mint))
          _ e in
      ground arith
  execute-IsAuthorized (initialize_position_bundle_with_metadata c m a) w e =
      let h =
        guarded
          (c.funder.is_signer
            && c.position_bundle_key
              == runtime.address (position_bundle_seeds c.position_bundle_mint)
            && a == pool_nft_update_auth)
          _ e in
      ground arith
  execute-IsAuthorized (delete_position_bundle c) w e =
      let h = guarded (delete_bundle_constraints runtime bank c) _ e in ground arith
  execute-IsAuthorized (open_bundled_position c i l u) w e =
      PositionCall-IsHolder runtime bank _ _ _ (opens_bundled_position c i l u w e)
  execute-IsAuthorized (close_bundled_position c i) w e =
      PositionCall-IsHolder runtime bank _ _ _ (closes_bundled_position c i w e)
