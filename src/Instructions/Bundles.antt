-- ===== src/Instructions/Bundles.antt =====
-- programs/elysium/src/instructions/initialize_position_bundle.rs, its twin _with_metadata,
-- open_bundled_position.rs, close_bundled_position.rs and delete_position_bundle.rs: positions that
-- one token stands for.
use elysium_dex.Base.{ℕ, Bool, not, ◌&&◌, ◌==◌}
use elysium_dex.Base.Int.{ℤ}
use elysium_dex.Errors.{fail_if, close_position_not_empty, position_bundle_not_deletable}
use elysium_dex.State.Pool.{ElysiumPool}
use elysium_dex.State.Position as PositionState
use elysium_dex.State.Position.{Position, is_position_empty}
use elysium_dex.State.PositionBundle as Bundle
use elysium_dex.State.PositionBundle.{PositionBundle, default_bundle, is_deletable}
use elysium_dex.Util.Authority.{TokenAccount, Signer, verify_position_bundle_authority}
use elysium_dex.Instructions.Outcome.{Outcome, done, lift, require, Account, ◌>>=◌, ◌>>◌}
use elysium_dex.Instructions.Runtime.{
  Runtime, pool_nft_update_auth, position_bundle_seeds, bundled_position_seeds,
  mint_position_bundle_token_and_remove_authority,
  mint_position_bundle_token_with_metadata_and_remove_authority,
  burn_and_close_position_bundle_token,
}
use elysium_dex.Instructions.Positions.{default_position}

-- `InitializePositionBundle`
pub record InitializePositionBundle : Type 0 where
  pub position_bundle_key : ℕ
  pub position_bundle_mint : ℕ
  pub position_bundle_token_account : ℕ
  pub funder : Signer

-- `OpenBundledPosition`
pub record OpenBundledPosition : Type 0 where
  pub bundled_position_key : ℕ
  pub position_bundle : PositionBundle
  pub position_bundle_token_account : ℕ
  pub position_bundle_authority : Signer
  pub pool : Account ElysiumPool
  pub funder : Signer

-- `CloseBundledPosition`
pub record CloseBundledPosition : Type 0 where
  pub bundled_position : Account Position
  pub position_bundle : PositionBundle
  pub position_bundle_token_account : ℕ
  pub position_bundle_authority : Signer

-- `DeletePositionBundle`
pub record DeletePositionBundle : Type 0 where
  pub position_bundle : PositionBundle
  pub position_bundle_mint : ℕ
  pub position_bundle_token_account : ℕ
  pub position_bundle_owner : Signer
  pub receiver : ℕ

-- The bundle's token: it is of the bundle's mint, and there is one of it.
unfoldable pub holds_bundle : TokenAccount → PositionBundle → Bool
holds_bundle t bundle = t.mint == bundle.position_bundle_mint && t.amount == 1

module _ {Bank : Type 0} (runtime : Runtime Bank) where
  -- initialize_position_bundle.rs, `handler`
  unfoldable pub initialize_position_bundle_handler :
      Bank → InitializePositionBundle → Outcome (Bank × PositionBundle)
  initialize_position_bundle_handler bank c = do
    require (
        c.funder.is_signer
        && c.position_bundle_key == runtime.address (position_bundle_seeds c.position_bundle_mint))
    minted ←
        mint_position_bundle_token_and_remove_authority runtime bank c.position_bundle_key
          c.position_bundle_mint c.position_bundle_token_account
    done (minted, Bundle.initialize default_bundle c.position_bundle_mint)

  -- initialize_position_bundle_with_metadata.rs, `handler`, with the keys of the metadata account
  -- and of the authority that may change it, which has to be `WPB_NFT_UPDATE_AUTH`.
  unfoldable pub initialize_position_bundle_with_metadata_handler :
      Bank
      → InitializePositionBundle
      → (position_bundle_metadata metadata_update_auth : ℕ) → Outcome (Bank × PositionBundle)
  initialize_position_bundle_with_metadata_handler bank c metadata update_auth = do
    require (
        c.funder.is_signer
        && c.position_bundle_key == runtime.address (position_bundle_seeds c.position_bundle_mint)
        && update_auth == pool_nft_update_auth)
    minted ←
        mint_position_bundle_token_with_metadata_and_remove_authority runtime bank
          c.position_bundle_key c.position_bundle_mint c.position_bundle_token_account metadata
          update_auth c.funder.key
    done (minted, Bundle.initialize default_bundle c.position_bundle_mint)

  unfoldable pub open_bundled_constraints : Bank → OpenBundledPosition → ℕ → Bool
  open_bundled_constraints bank c bundle_index =
      c.position_bundle_authority.is_signer
      && c.funder.is_signer
      && c.bundled_position_key
        == runtime.address
            (bundled_position_seeds c.position_bundle.position_bundle_mint bundle_index)
      && holds_bundle (runtime.token_account bank c.position_bundle_token_account) c.position_bundle

  -- open_bundled_position.rs, `handler`, with the bundle and the new position.
  unfoldable pub open_bundled_position_handler :
      Bank
      → OpenBundledPosition
      → (bundle_index : ℕ) → (tick_lower_index tick_upper_index : ℤ)
      → Outcome (PositionBundle × Position)
  open_bundled_position_handler bank c bundle_index lower upper = do
    require (open_bundled_constraints bank c bundle_index)
    lift (
        verify_position_bundle_authority
          (runtime.token_account bank c.position_bundle_token_account) c.position_bundle_authority)
    bundle ← lift (Bundle.open_bundled_position c.position_bundle bundle_index)
    position ← lift (
        PositionState.open_position default_position c.pool.key c.pool.content.tick_spacing
          bundle.position_bundle_mint lower upper)
    done (bundle, position)

  unfoldable pub close_bundled_constraints : Bank → CloseBundledPosition → ℕ → Bool
  close_bundled_constraints bank c bundle_index =
      let token = runtime.token_account bank c.position_bundle_token_account in
      c.position_bundle_authority.is_signer
      && c.bundled_position.key
        == runtime.address
            (bundled_position_seeds c.position_bundle.position_bundle_mint bundle_index)
      && token.mint == c.bundled_position.content.position_mint
      && holds_bundle token c.position_bundle

  -- close_bundled_position.rs, `handler`; the position's account is closed afterwards.
  unfoldable pub close_bundled_position_handler :
      Bank → CloseBundledPosition → (bundle_index : ℕ) → Outcome PositionBundle
  close_bundled_position_handler bank c bundle_index = do
    require (close_bundled_constraints bank c bundle_index)
    lift (
        verify_position_bundle_authority
          (runtime.token_account bank c.position_bundle_token_account) c.position_bundle_authority)
    lift (fail_if (not (is_position_empty c.bundled_position.content)) close_position_not_empty)
    lift (Bundle.close_bundled_position c.position_bundle bundle_index)

  unfoldable pub delete_bundle_constraints : Bank → DeletePositionBundle → Bool
  delete_bundle_constraints bank c =
      let token = runtime.token_account bank c.position_bundle_token_account in
      c.position_bundle_owner.is_signer
      && c.position_bundle_mint == c.position_bundle.position_bundle_mint
      && holds_bundle token c.position_bundle
      && token.owner == c.position_bundle_owner.key

  -- delete_position_bundle.rs, `handler`; the bundle's account is closed afterwards.
  unfoldable pub delete_position_bundle_handler : Bank → DeletePositionBundle → Outcome Bank
  delete_position_bundle_handler bank c = do
    require (delete_bundle_constraints bank c)
    lift (fail_if (not (is_deletable c.position_bundle)) position_bundle_not_deletable)
    burn_and_close_position_bundle_token runtime bank c.position_bundle_owner c.receiver
        c.position_bundle_mint c.position_bundle_token_account
