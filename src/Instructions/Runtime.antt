-- ===== src/Instructions/Runtime.antt =====
-- What the program calls that is not its own: the token and metadata programs, and the derivation
-- of addresses. programs/elysium/src/util/token.rs is the program's side of those calls.
use Prim.Native.String.{String, ◌++◌ as append, len, slice}
use elysium_dex.Base.{ltb, if◌then◌else◌, ◌-◌, ℕ, ◌+◌, ◌≡◌, ◌≢◌, Option, some}
use elysium_dex.Base.Int.{ℤ}
use elysium_dex.Util.Authority.{TokenAccount, Signer}
use elysium_dex.Instructions.Outcome.{done, failed, panicked, Outcome, invoke, ◌>>=◌}

-- programs/elysium/src/constants/nft.rs: `pool_nft_update_auth::ID`, the number whose base-58 text
-- is 3axbTs2z5GBy6usVbNVoqEgZMng3vZvMnAoX29BFfwhr.
abbrev pub pool_nft_update_auth : ℕ
pool_nft_update_auth = 0x266a66aedd97e5f04471d608e4c69939d77a9d99b3cdd0931189fe6b910ad269

abbrev pub wp_metadata_name : String
wp_metadata_name = "Orca ElysiumPool Position"

abbrev pub wp_metadata_symbol : String
wp_metadata_symbol = "OWP"

abbrev pub wp_metadata_uri : String
wp_metadata_uri = "https://arweave.net/E19ZNY2sqMqddm1Wx7mrXPUZ0ZZ5ISizhebb0UsVEws"

abbrev pub wpb_metadata_name_prefix : String
wpb_metadata_name_prefix = "Orca Position Bundle"

abbrev pub wpb_metadata_symbol : String
wpb_metadata_symbol = "OPB"

abbrev pub wpb_metadata_uri : String
wpb_metadata_uri = "https://arweave.net/A_Wo8dx2_3lSUwMIi7bdT_sqxi8soghRNAWXXiqXpgE"

-- What an address is derived from, by the `seeds` of the accounts.
pub data Seeds : Type 0 where
  position_seeds position_bundle_seeds oracle_seeds : ℕ → Seeds
  bundled_position_seeds fee_tier_seeds : ℕ → ℕ → Seeds
  tick_array_seeds : ℕ → ℤ → Seeds
  pool_seeds : ℕ → ℕ → ℕ → ℕ → Seeds

-- `key_text` is the base-58 text of a key, all ASCII. `bank` is the state of the other programs. A call of them fails or returns the new state; its
-- last argument but the amount is the key of the account that signs.
pub record Runtime (Bank : Type 0) : Type 0 where
  pub address : Seeds → ℕ
  pub key_text : ℕ → String
  pub token_account : Bank → ℕ → TokenAccount
  pub transfer : (bank : Bank) (from to authority amount : ℕ) → Option Bank
  pub mint_to : (bank : Bank) (mint account authority amount : ℕ) → Option Bank
  pub remove_mint_authority : (bank : Bank) (mint authority : ℕ) → Option Bank
  pub burn : (bank : Bank) (account mint authority amount : ℕ) → Option Bank
  pub close_account : (bank : Bank) (account receiver authority : ℕ) → Option Bank
  pub create_metadata :
      (bank : Bank) (metadata mint mint_authority payer update_authority : ℕ)
      (name symbol uri : String)
      → Option Bank

-- What the token program documents of a transfer between two accounts: it moves the amount and
-- changes no other account's amount, and no account's mint.
pub record IsTransfer {Bank : Type 0} (runtime : Runtime Bank) : Type 0 where
  pub pays :
      (bank bank' : Bank) (from to authority amount : ℕ)
      → runtime.transfer bank from to authority amount ≡ some bank'
      → from ≢ to
      → ((runtime.token_account bank' from).amount + amount
          ≡ (runtime.token_account bank from).amount)
        × ((runtime.token_account bank' to).amount
            ≡ (runtime.token_account bank to).amount + amount)
  pub keeps :
      (bank bank' : Bank) (from to authority amount other : ℕ)
      → runtime.transfer bank from to authority amount ≡ some bank'
      → other ≢ from
      → other ≢ to
      → (runtime.token_account bank' other).amount ≡ (runtime.token_account bank other).amount
  pub keeps_mint :
      (bank bank' : Bank) (from to authority amount other : ℕ)
      → runtime.transfer bank from to authority amount ≡ some bank'
      → (runtime.token_account bank' other).mint ≡ (runtime.token_account bank other).mint

module _ {Bank : Type 0} (runtime : Runtime Bank) where
  unfoldable pub transfer_from_owner_to_vault :
      Bank → Signer → (owner_account vault amount : ℕ) → Outcome Bank
  transfer_from_owner_to_vault bank authority owner_account vault amount =
      invoke (runtime.transfer bank owner_account vault authority.key amount)

  -- The pool's address signs for the vault.
  unfoldable pub transfer_from_vault_to_owner :
      Bank → (pool_key vault owner_account amount : ℕ) → Outcome Bank
  transfer_from_vault_to_owner bank pool_key vault owner_account amount =
      invoke (runtime.transfer bank vault owner_account pool_key amount)

  unfoldable pub burn_and_close_user_position_token :
      Bank → Signer → (receiver position_mint position_token_account : ℕ) → Outcome Bank
  burn_and_close_user_position_token bank authority receiver mint account = do
    burnt ← invoke (runtime.burn bank account mint authority.key 1)
    invoke (runtime.close_account burnt account receiver authority.key)

  unfoldable pub burn_and_close_position_bundle_token :
      Bank → Signer → (receiver mint token_account : ℕ) → Outcome Bank
  burn_and_close_position_bundle_token bank authority receiver mint account =
      burn_and_close_user_position_token bank authority receiver mint account

  unfoldable pub mint_position_token : Bank → (pool_key mint token_account : ℕ) → Outcome Bank
  mint_position_token bank pool_key mint account =
      invoke (runtime.mint_to bank mint account pool_key 1)

  unfoldable pub remove_position_token_mint_authority : Bank → (pool_key mint : ℕ) → Outcome Bank
  remove_position_token_mint_authority bank pool_key mint =
      invoke (runtime.remove_mint_authority bank mint pool_key)

  unfoldable pub mint_position_token_and_remove_authority :
      Bank → (pool_key mint token_account : ℕ) → Outcome Bank
  mint_position_token_and_remove_authority bank pool_key mint account = do
    minted ← mint_position_token bank pool_key mint account
    remove_position_token_mint_authority minted pool_key mint

  unfoldable pub mint_position_token_with_metadata_and_remove_authority :
      Bank → (pool_key mint token_account metadata update_authority funder : ℕ) → Outcome Bank
  mint_position_token_with_metadata_and_remove_authority bank pool_key mint account metadata
        update_authority funder =
      do
        minted ← mint_position_token bank pool_key mint account
        described ← invoke (
            runtime.create_metadata minted metadata mint pool_key funder update_authority
              wp_metadata_name wp_metadata_symbol wp_metadata_uri)
        remove_position_token_mint_authority described pool_key mint

  unfoldable pub mint_position_bundle_token :
      Bank → (bundle_key mint token_account : ℕ) → Outcome Bank
  mint_position_bundle_token bank bundle_key mint account =
      invoke (runtime.mint_to bank mint account bundle_key 1)

  unfoldable pub remove_position_bundle_token_mint_authority :
      Bank → (bundle_key mint : ℕ) → Outcome Bank
  remove_position_bundle_token_mint_authority bank bundle_key mint =
      invoke (runtime.remove_mint_authority bank mint bundle_key)

  unfoldable pub mint_position_bundle_token_and_remove_authority :
      Bank → (bundle_key mint token_account : ℕ) → Outcome Bank
  mint_position_bundle_token_and_remove_authority bank bundle_key mint account = do
    minted ← mint_position_bundle_token bank bundle_key mint account
    remove_position_bundle_token_mint_authority minted bundle_key mint

  -- The name of a bundle's token: with the first and the last four characters of the mint's text.
  unfoldable pub bundle_nft_name : (position_bundle_mint : ℕ) → Outcome String
  bundle_nft_name mint =
      let mint_address = runtime.key_text mint in
      let first = slice mint_address 0 4 in
      let last = slice mint_address (len mint_address - 4) (len mint_address) in
      if ltb (len mint_address) 4
      then failed panicked
      else done (append wpb_metadata_name_prefix (append " " (append first (append "..." last))))

  unfoldable pub mint_position_bundle_token_with_metadata_and_remove_authority :
      Bank → (bundle_key mint token_account metadata update_authority funder : ℕ) → Outcome Bank
  mint_position_bundle_token_with_metadata_and_remove_authority bank bundle_key mint account
        metadata update_authority funder =
      do
        minted ← mint_position_bundle_token bank bundle_key mint account
        nft_name ← bundle_nft_name mint
        described ← invoke (
            runtime.create_metadata minted metadata mint bundle_key funder update_authority nft_name
              wpb_metadata_symbol wpb_metadata_uri)
        remove_position_bundle_token_mint_authority described bundle_key mint
