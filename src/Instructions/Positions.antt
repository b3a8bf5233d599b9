-- ===== src/Instructions/Positions.antt =====
-- programs/elysium/src/instructions/open_position.rs, open_position_with_metadata.rs and
-- close_position.rs: positions that a token of their own stands for. Anchor creates the accounts
-- marked `init`, empty, before a handler runs, and closes those marked `close` after it.
pub mod Closing
pub mod Finishing
use elysium_dex.Base.{ℕ, Bool, not, ◌&&◌, fill, ◌==◌}
use elysium_dex.Base.Int.{ℤ, pos}
use elysium_dex.Errors.{fail_if, close_position_not_empty}
use elysium_dex.State.Pool.{ElysiumPool}
use elysium_dex.State.Position as PositionState
use elysium_dex.State.Position.{Position, PositionRewardInfo, is_position_empty}
use elysium_dex.Util.Authority.{Signer, verify_position_authority}
use elysium_dex.Instructions.Outcome.{Outcome, done, lift, require, Account, ◌>>=◌, ◌>>◌}
use elysium_dex.Instructions.Runtime.{
  Runtime, pool_nft_update_auth, position_seeds, mint_position_token_and_remove_authority,
  mint_position_token_with_metadata_and_remove_authority, burn_and_close_user_position_token,
}
use elysium_dex.Instructions.Liquidity.{holds_position}

-- `Position::default()`, the content of an account that has just been created.
abbrev pub default_position : Position
default_position = record {
  pool = 0;
  position_mint = 0;
  liquidity = 0;
  tick_lower_index = pos 0;
  tick_upper_index = pos 0;
  fee_growth_checkpoint_a = 0;
  fee_owed_a = 0;
  fee_growth_checkpoint_b = 0;
  fee_owed_b = 0;
  reward_infos = fill (record { growth_inside_checkpoint = 0; amount_owed = 0 });
}

-- `OpenPosition`, and `OpenPositionWithMetadata`: the keys of the accounts, and the pool.
pub record OpenPosition : Type 0 where
  pub funder : Signer
  pub position_key : ℕ
  pub position_mint : ℕ
  pub position_token_account : ℕ
  pub pool : Account ElysiumPool

-- `ClosePosition`
pub record ClosePosition : Type 0 where
  pub position_authority : Signer
  pub receiver : ℕ
  pub position : Account Position
  pub position_mint : ℕ
  pub position_token_account : ℕ

module _ {Bank : Type 0} (runtime : Runtime Bank) where
  unfoldable pub open_position_constraints : OpenPosition → Bool
  open_position_constraints c =
      c.funder.is_signer && c.position_key == runtime.address (position_seeds c.position_mint)

  -- open_position.rs, `handler`
  unfoldable pub open_position_handler :
      Bank → OpenPosition → (tick_lower_index tick_upper_index : ℤ) → Outcome (Bank × Position)
  open_position_handler bank c lower upper = do
    require (open_position_constraints c)
    position ← lift (
        PositionState.open_position default_position c.pool.key c.pool.content.tick_spacing
          c.position_mint lower upper)
    minted ←
        mint_position_token_and_remove_authority runtime bank c.pool.key c.position_mint
          c.position_token_account
    done (minted, position)

  -- open_position_with_metadata.rs, `handler`, with the keys of the metadata account and of the
  -- authority that may change it, which has to be `WP_NFT_UPDATE_AUTH`.
  unfoldable pub open_position_with_metadata_handler :
      Bank
      → OpenPosition
      → (position_metadata_account metadata_update_auth : ℕ)
      → (tick_lower_index tick_upper_index : ℤ) → Outcome (Bank × Position)
  open_position_with_metadata_handler bank c metadata update_auth lower upper = do
    require (open_position_constraints c && update_auth == pool_nft_update_auth)
    position ← lift (
        PositionState.open_position default_position c.pool.key c.pool.content.tick_spacing
          c.position_mint lower upper)
    minted ←
        mint_position_token_with_metadata_and_remove_authority runtime bank c.pool.key
          c.position_mint c.position_token_account metadata update_auth c.funder.key
    done (minted, position)

  unfoldable pub close_position_constraints : Bank → ClosePosition → Bool
  close_position_constraints bank c =
      c.position_authority.is_signer
      && c.position.key == runtime.address (position_seeds c.position_mint)
      && c.position_mint == c.position.content.position_mint
      && holds_position (runtime.token_account bank c.position_token_account) c.position.content

  -- close_position.rs, `handler`; the position's account is closed afterwards.
  unfoldable pub close_position_handler : Bank → ClosePosition → Outcome Bank
  close_position_handler bank c = do
    require (close_position_constraints bank c)
    lift (
        verify_position_authority (runtime.token_account bank c.position_token_account)
          c.position_authority)
    lift (fail_if (not (is_position_empty c.position.content)) close_position_not_empty)
    burn_and_close_user_position_token runtime bank c.position_authority c.receiver c.position_mint
        c.position_token_account
