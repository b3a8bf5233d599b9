-- ===== src/Errors.antt =====
-- programs/elysium/src/errors.rs, and the outcome of a call: a value, an error code, or a panic.
use elysium_dex.Base.{◌≡◌, refl, Option, none, some, Bool, true, false}

-- `ErrorCode`
pub data ErrorCode : Type 0 where
  invalid_enum invalid_start_tick tick_array_exist_in_pool : ErrorCode
  tick_array_index_outof_bounds invalid_tick_spacing close_position_not_empty : ErrorCode
  divide_by_zero number_cast_error number_down_cast_error tick_not_found : ErrorCode
  invalid_tick_index sqrt_price_out_of_bounds liquidity_zero liquidity_too_high : ErrorCode
  liquidity_overflow liquidity_underflow liquidity_net_error token_max_exceeded : ErrorCode
  token_min_subceeded missing_or_invalid_delegate invalid_position_token_amount : ErrorCode
  invalid_timestamp_conversion invalid_timestamp invalid_tick_array_sequence : ErrorCode
  invalid_token_mint_order reward_not_initialized invalid_reward_index : ErrorCode
  reward_vault_amount_insufficient fee_rate_max_exceeded : ErrorCode
  protocol_fee_rate_max_exceeded multiplication_shift_right_overflow : ErrorCode
  mul_div_overflow mul_div_invalid_input multiplication_overflow : ErrorCode
  invalid_sqrt_price_limit_direction zero_tradable_amount : ErrorCode
  amount_out_below_minimum amount_in_above_maximum : ErrorCode
  tick_array_sequence_invalid_index amount_calc_overflow : ErrorCode
  amount_remaining_overflow invalid_intermediary_mint duplicate_two_hop_pool : ErrorCode
  invalid_bundle_index bundled_position_already_opened : ErrorCode
  bundled_position_already_closed position_bundle_not_deletable : ErrorCode

-- `panic` is a failed `unwrap`, an index out of bounds or a division by zero.
pub data Result {ℓ} (A : Type ℓ) : Type ℓ where
  ok : A → Result A
  err : ErrorCode → Result A
  panic : Result A

-- The rest of a function, after a call that returns: `?`.
infixl 5 ◌>>=◌ ◌>>◌
abbrev pub ◌>>=◌ {ℓ κ} : {A : Type ℓ} {B : Type κ} → Result A → (A → Result B) → Result B
panic >>= rest = panic
err code >>= rest = err code
ok value >>= rest = rest value

abbrev pub ◌>>◌ {κ} : {A : Type κ} → Result (Unit {0}) → Result A → Result A
done >> rest = done >>= λ unit. rest

module _ {ℓ} {A : Type ℓ} where
  -- `Option::ok_or`
  abbrev pub ok_or : Option A → ErrorCode → Result A
  ok_or none e = err e
  ok_or (some a) e = ok a

  -- `Option::unwrap`, and indexing.
  abbrev pub unwrap : Option A → Result A
  unwrap none = panic
  unwrap (some a) = ok a

  -- `Result::unwrap`
  abbrev pub unwrap_ok : Result A → Result A
  unwrap_ok (ok a) = ok a
  unwrap_ok (err e) = panic
  unwrap_ok panic = panic

  -- `Result::unwrap_or`
  abbrev pub unwrap_or : Result A → A → Result A
  unwrap_or (ok a) d = ok a
  unwrap_or (err e) d = ok d
  unwrap_or panic d = panic

-- `if b { return Err(e) }`
abbrev pub fail_if : Bool → ErrorCode → Result (Unit {0})
fail_if true e = err e
fail_if false e = ok tt

-- A sequence of calls returns only if each of them does.
pub bind_returns {ℓ κ} :
    {A : Type ℓ} {B : Type κ} (m : Result A) (rest : A → Result B) {result : B}
    → (m >>= rest) ≡ ok result
    → (value : A) × (m ≡ ok value) × (rest value ≡ ok result)
bind_returns panic rest returns = cc
bind_returns (err code) rest returns = cc
bind_returns (ok value) rest returns = (value, refl, returns)
