-- ===== src/Instructions/Liquidity/Runs.antt =====
-- What a change of liquidity that finishes has done.
use elysium_dex.Base.{ℕ, ◌≤◌, ◌≡◌, ap, ◌∙◌, arith, true, false, some, ltb, ◌==◌}
use elysium_dex.Base.Int.{ℤ}
use elysium_dex.Errors.{
  Result, ok, fail_if, liquidity_zero, token_max_exceeded, token_min_subceeded,
}
use elysium_dex.Math.Liquidity.{convert_to_liquidity_delta}
use elysium_dex.Util.Authority.{verify_position_authority, to_timestamp_u64}
use elysium_dex.Manager.Liquidity.{LiquidityAccounts}
use elysium_dex.Instructions.Outcome.{
  done, lift, require, bind_finishes, require_holds, done_injective, lift_returns,
}
use elysium_dex.Instructions.Runtime.{
  Runtime, transfer_from_owner_to_vault, transfer_from_vault_to_owner,
}
use elysium_dex.Instructions.Transfers.{invoke_succeeds}
use elysium_dex.Instructions.Liquidity.{
  ModifyLiquidity, change_liquidity, modify_constraints, increase_liquidity_handler,
  decrease_liquidity_handler,
}

-- A check returns nothing but that it holds.
verified : (r : Result (Unit {0})) {u : Unit {0}} → r ≡ ok u → r ≡ ok tt
verified r e = e

module _ {Bank : Type 0} (runtime : Runtime Bank) where
  -- What the handler has done, in order, before it returns.
  abbrev pub IsIncreaseRun :
      Bank
      → ModifyLiquidity
      → (amount max_a max_b : ℕ) → ℤ
      → (result : Bank × LiquidityAccounts) → (delta : ℤ) → (t : ℕ)
      → (change : LiquidityAccounts × (ℕ × ℕ)) → (middle : Bank) → Type 0
  IsIncreaseRun bank c amount max_a max_b time result delta t change middle =
      (modify_constraints runtime bank c ≡ true)
      × (verify_position_authority (runtime.token_account bank c.position_token_account)
            c.position_authority
          ≡ ok tt)
      × (convert_to_liquidity_delta amount true ≡ ok delta)
      × (change_liquidity c.accounts delta t ≡ done change)
      × (change.1.0 ≤ max_a)
      × (change.1.1 ≤ max_b)
      × (runtime.transfer bank c.token_owner_account_a c.token_vault_a c.position_authority.key
            change.1.0
          ≡ some middle)
      × (runtime.transfer middle c.token_owner_account_b c.token_vault_b c.position_authority.key
            change.1.1
          ≡ some result.0)
      × (change.0 ≡ result.1)

  pub increase_liquidity_handler-inverts :
      (bank : Bank) (c : ModifyLiquidity) (amount max_a max_b : ℕ) (time : ℤ)
      (result : Bank × LiquidityAccounts)
      → increase_liquidity_handler runtime bank c amount max_a max_b time ≡ done result
      → (delta : ℤ) × (t : ℕ) × (change : LiquidityAccounts × (ℕ × ℕ)) × (middle : Bank)
        × IsIncreaseRun bank c amount max_a max_b time result delta t change middle
  unfolding increase_liquidity_handler transfer_from_owner_to_vault
  increase_liquidity_handler-inverts bank c amount max_a max_b time result e =
      let (v1, a1, e1) = bind_finishes (require (modify_constraints runtime bank c)) _ e in
      let (v2, a2, e2) =
        bind_finishes
          (lift (
            verify_position_authority (runtime.token_account bank c.position_token_account)
              c.position_authority))
          _ e1 in
      let (v3, a3, e3) = bind_finishes (lift (fail_if (amount == 0) liquidity_zero)) _ e2 in
      let (delta, a4, e4) = bind_finishes (lift (convert_to_liquidity_delta amount true)) _ e3 in
      let (t, a5, e5) = bind_finishes (lift (to_timestamp_u64 time)) _ e4 in
      let (change, a6, e6) = bind_finishes (change_liquidity c.accounts delta t) _ e5 in
      let (v7, a7, e7) =
        bind_finishes (lift (fail_if (ltb max_a change.1.0) token_max_exceeded)) _ e6 in
      let (v8, a8, e8) =
        bind_finishes (lift (fail_if (ltb max_b change.1.1) token_max_exceeded)) _ e7 in
      let (paid_a, a9, e9) =
        bind_finishes
          (transfer_from_owner_to_vault runtime bank c.position_authority c.token_owner_account_a
            c.token_vault_a change.1.0)
          _ e8 in
      let (paid_b, a10, e10) =
        bind_finishes
          (transfer_from_owner_to_vault runtime paid_a c.position_authority c.token_owner_account_b
            c.token_vault_b change.1.1)
          _ e9 in
      (
        delta,
        t,
        change,
        paid_a,
        (
          require_holds _ a1,
          verified _ (lift_returns _ a2),
          lift_returns _ a4,
          a6,
          ground arith,
          ground arith,
          invoke_succeeds _ a9,
          invoke_succeeds _ a10 ∙ ap (λ z. some z.0) (done_injective e10),
          ap (λ z. z.1) (done_injective e10),
        ),
      )

  -- What the handler has done, in order, before it returns.
  abbrev pub IsDecreaseRun :
      Bank
      → ModifyLiquidity
      → (amount min_a min_b : ℕ) → ℤ
      → (result : Bank × LiquidityAccounts) → (delta : ℤ) → (t : ℕ)
      → (change : LiquidityAccounts × (ℕ × ℕ)) → (middle : Bank) → Type 0
  IsDecreaseRun bank c amount min_a min_b time result delta t change middle =
      (modify_constraints runtime bank c ≡ true)
      × (verify_position_authority (runtime.token_account bank c.position_token_account)
            c.position_authority
          ≡ ok tt)
      × (convert_to_liquidity_delta amount false ≡ ok delta)
      × (change_liquidity c.accounts delta t ≡ done change)
      × (min_a ≤ change.1.0)
      × (min_b ≤ change.1.1)
      × (runtime.transfer bank c.token_vault_a c.token_owner_account_a c.pool_key change.1.0
          ≡ some middle)
      × (runtime.transfer middle c.token_vault_b c.token_owner_account_b c.pool_key change.1.1
          ≡ some result.0)
      × (change.0 ≡ result.1)

  pub decrease_liquidity_handler-inverts :
      (bank : Bank) (c : ModifyLiquidity) (amount min_a min_b : ℕ) (time : ℤ)
      (result : Bank × LiquidityAccounts)
      → decrease_liquidity_handler runtime bank c amount min_a min_b time ≡ done result
      → (delta : ℤ) × (t : ℕ) × (change : LiquidityAccounts × (ℕ × ℕ)) × (middle : Bank)
        × IsDecreaseRun bank c amount min_a min_b time result delta t change middle
  unfolding decrease_liquidity_handler transfer_from_vault_to_owner
  decrease_liquidity_handler-inverts bank c amount min_a min_b time result e =
      let (v1, a1, e1) = bind_finishes (require (modify_constraints runtime bank c)) _ e in
      let (v2, a2, e2) =
        bind_finishes
          (lift (
            verify_position_authority (runtime.token_account bank c.position_token_account)
              c.position_authority))
          _ e1 in
      let (v3, a3, e3) = bind_finishes (lift (fail_if (amount == 0) liquidity_zero)) _ e2 in
      let (delta, a4, e4) = bind_finishes (lift (convert_to_liquidity_delta amount false)) _ e3 in
      let (t, a5, e5) = bind_finishes (lift (to_timestamp_u64 time)) _ e4 in
      let (change, a6, e6) = bind_finishes (change_liquidity c.accounts delta t) _ e5 in
      let (v7, a7, e7) =
        bind_finishes (lift (fail_if (ltb change.1.0 min_a) token_min_subceeded)) _ e6 in
      let (v8, a8, e8) =
        bind_finishes (lift (fail_if (ltb change.1.1 min_b) token_min_subceeded)) _ e7 in
      let (paid_a, a9, e9) =
        bind_finishes
          (transfer_from_vault_to_owner runtime bank c.pool_key c.token_vault_a
            c.token_owner_account_a change.1.0)
          _ e8 in
      let (paid_b, a10, e10) =
        bind_finishes
          (transfer_from_vault_to_owner runtime paid_a c.pool_key c.token_vault_b
            c.token_owner_account_b change.1.1)
          _ e9 in
      (
        delta,
        t,
        change,
        paid_a,
        (
          require_holds _ a1,
          verified _ (lift_returns _ a2),
          lift_returns _ a4,
          a6,
          ground arith,
          ground arith,
          invoke_succeeds _ a9,
          invoke_succeeds _ a10 ∙ ap (λ z. some z.0) (done_injective e10),
          ap (λ z. z.1) (done_injective e10),
        ),
      )
