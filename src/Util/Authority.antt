-- ===== src/Util/Authority.antt =====
-- programs/elysium/src/util/util.rs: who may act on a position, and the clock's time.
pub mod Verify
use elysium_dex.Base.{ℕ, Bool, not, ◌||◌, Option, none, some, ◌==◌, if◌then◌else◌}
use elysium_dex.Base.Int.{ℤ, pos, negsuc}
use elysium_dex.Errors.{
  Result, ok, err, fail_if, ◌>>◌, invalid_position_token_amount, invalid_timestamp_conversion,
  missing_or_invalid_delegate,
}

-- The fields of an SPL token account that the program reads.
pub record TokenAccount : Type 0 where
  pub mint : ℕ
  pub amount : ℕ
  pub owner : ℕ
  pub delegate : Option ℕ
  pub delegated_amount : ℕ

-- `Signer`, or `AccountInfo`: the key of an account and whether it signed.
pub record Signer : Type 0 where
  pub key : ℕ
  pub is_signer : Bool

unfoldable pub validate_owner : ℕ → Signer → Result (Unit {0})
validate_owner expected_owner s =
    fail_if (not (expected_owner == s.key) || not s.is_signer) missing_or_invalid_delegate

-- The branch for a delegate that is the signer.
unfoldable pub verify_delegate : TokenAccount → ℕ → Signer → Result (Unit {0})
unfolding validate_owner
verify_delegate t delegate s = do
  validate_owner delegate s
  fail_if (not (t.delegated_amount == 1)) invalid_position_token_amount

unfoldable pub verify_position_authority : TokenAccount → Signer → Result (Unit {0})
unfolding validate_owner verify_delegate
verify_position_authority t s = elim t.delegate [
  | none ↦ validate_owner t.owner s
  | some d ↦ if s.key == d then verify_delegate t d s else validate_owner t.owner s
]

unfoldable pub to_timestamp_u64 : ℤ → Result ℕ
to_timestamp_u64 (pos n) = ok n
to_timestamp_u64 (negsuc n) = err invalid_timestamp_conversion

unfoldable pub verify_position_bundle_authority : TokenAccount → Signer → Result (Unit {0})
unfolding verify_position_authority
verify_position_bundle_authority t s = verify_position_authority t s
