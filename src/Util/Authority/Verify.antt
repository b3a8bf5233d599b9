-- ===== src/Util/Authority/Verify.antt =====
-- Who passes the check on a position's authority, and why the others do not.
use elysium_dex.Base.{ℕ, ◌≡◌, ◌≢◌, ◌⊎◌, arith, true, Option, none, some}
use elysium_dex.Errors.{ok, err, invalid_position_token_amount, missing_or_invalid_delegate}
use elysium_dex.Util.Authority.{
  TokenAccount, Signer, validate_owner, verify_delegate, verify_position_authority,
}

-- The delegate of a token account, where it has one, is of this key.
abbrev pub IsDelegate : Option ℕ → ℕ → Type 0
IsDelegate delegate key = delegate ≡ some key

-- The signer is the delegate, for exactly one token, or else it is the owner.
abbrev pub MayAct : TokenAccount → Signer → Type 0
MayAct t s =
    (s.is_signer ≡ true)
    × ((IsDelegate t.delegate s.key × (t.delegated_amount ≡ 1))
        ⊎ ((t.delegate ≢ some s.key) × (t.owner ≡ s.key)))

-- The delegate has signed, but not for exactly one token.
abbrev pub HasWrongAmount : TokenAccount → Signer → Type 0
HasWrongAmount t s = (s.is_signer ≡ true) × IsDelegate t.delegate s.key × (t.delegated_amount ≢ 1)

-- Every outcome of the check, with what it means.
abbrev pub Outcomes : TokenAccount → Signer → Type 0
Outcomes t s =
    (verify_position_authority t s ≡ ok tt × MayAct t s)
    ⊎ ((verify_position_authority t s ≡ err invalid_position_token_amount × HasWrongAmount t s)
        ⊎ (verify_position_authority t s ≡ err missing_or_invalid_delegate
            × (MayAct t s → ⊥)
            × (HasWrongAmount t s → ⊥)))

verify_at :
    (t : TokenAccount) (s : Signer) (delegate : Option ℕ)
    → Outcomes (record t { delegate = delegate }) s
unfolding verify_position_authority validate_owner verify_delegate
verify_at t s none = ground arith
verify_at t s (some d) = ground arith

-- The check on a position's authority passes exactly for a signer that may act. It returns
-- `InvalidPositionTokenAmount` exactly for a delegate that has signed, but for another amount than
-- one, and `MissingOrInvalidDelegate` for all others; it never panics.
pub verify_position_authority-Outcomes : (t : TokenAccount) (s : Signer) → Outcomes t s
verify_position_authority-Outcomes t s = verify_at t s t.delegate

pub verify_position_authority-MayAct :
    (t : TokenAccount) (s : Signer) → verify_position_authority t s ≡ ok tt → MayAct t s
verify_position_authority-MayAct t s e = ground (arith, verify_position_authority-Outcomes t s)
