-- ===== src/Instructions/Signed.antt =====
-- Which signatures the instructions on a position ask for.
use elysium_dex.Base.{ℕ, ◌≡◌, arith, Bool, true, entry?}
use elysium_dex.Base.Int.{ℤ}
use elysium_dex.Errors.{Result, ok, unwrap}
use elysium_dex.State.Position.{Position}
use elysium_dex.State.PositionBundle.{PositionBundle}
use elysium_dex.Util.Authority.{Signer, verify_position_authority, verify_position_bundle_authority}
use elysium_dex.Util.Authority.Verify.{MayAct, verify_position_authority-MayAct}
use elysium_dex.Manager.Liquidity.{LiquidityAccounts}
use elysium_dex.Instructions.Outcome.{
  Outcome, done, lift, require, bind_finishes, require_holds, lift_returns, ◌>>◌,
}
use elysium_dex.Instructions.Runtime.{Runtime}
use elysium_dex.Instructions.Liquidity.{
  ModifyLiquidity, modify_constraints, holds_position, increase_liquidity_handler,
  decrease_liquidity_handler,
}
use elysium_dex.Instructions.Collect.{
  CollectFees, CollectReward, collect_fees_constraints, collect_fees_handler,
  reward_position_constraints, reward_token_constraints, collect_reward_handler,
}
use elysium_dex.Instructions.Positions.{
  ClosePosition, close_position_constraints, close_position_handler,
}
use elysium_dex.Instructions.Bundles.{
  OpenBundledPosition, CloseBundledPosition, holds_bundle, open_bundled_constraints,
  open_bundled_position_handler, close_bundled_constraints, close_bundled_position_handler,
}

module _ {Bank : Type 0} (runtime : Runtime Bank) (bank : Bank) where
  -- An instruction on a position, or on a bundle, that finishes: its authority, the token account
  -- that it shows, and the mint that the position or the bundle names.
  pub data PositionCall : Signer → (token_account mint : ℕ) → Type 0 where
    increases_liquidity :
        (c : ModifyLiquidity) (amount max_a max_b : ℕ) (time : ℤ)
        (result : Bank × LiquidityAccounts)
        → increase_liquidity_handler runtime bank c amount max_a max_b time ≡ done result
        → PositionCall c.position_authority c.position_token_account
            c.accounts.position.position_mint
    decreases_liquidity :
        (c : ModifyLiquidity) (amount min_a min_b : ℕ) (time : ℤ)
        (result : Bank × LiquidityAccounts)
        → decrease_liquidity_handler runtime bank c amount min_a min_b time ≡ done result
        → PositionCall c.position_authority c.position_token_account
            c.accounts.position.position_mint
    collects_fees :
        (c : CollectFees) (result : Bank × Position)
        → collect_fees_handler runtime bank c ≡ done result
        → PositionCall c.position_authority c.position_token_account c.position.position_mint
    collects_reward :
        (c : CollectReward) (index : ℕ) (result : Bank × Position)
        → collect_reward_handler runtime bank c index ≡ done result
        → PositionCall c.position_authority c.position_token_account c.position.position_mint
    closes_position :
        (c : ClosePosition) (bank' : Bank)
        → close_position_handler runtime bank c ≡ done bank'
        → PositionCall c.position_authority c.position_token_account
            c.position.content.position_mint
    opens_bundled_position :
        (c : OpenBundledPosition) (index : ℕ) (lower upper : ℤ) (result : PositionBundle × Position)
        → open_bundled_position_handler runtime bank c index lower upper ≡ done result
        → PositionCall c.position_bundle_authority c.position_bundle_token_account
            c.position_bundle.position_bundle_mint
    closes_bundled_position :
        (c : CloseBundledPosition) (index : ℕ) (bundle : PositionBundle)
        → close_bundled_position_handler runtime bank c index ≡ done bundle
        → PositionCall c.position_bundle_authority c.position_bundle_token_account
            c.position_bundle.position_bundle_mint

  -- The account holds the one token of a mint, and the signer may act for it.
  abbrev pub IsHolder : Signer → (token_account mint : ℕ) → Type 0
  IsHolder s account mint =
      MayAct (runtime.token_account bank account) s
      × ((runtime.token_account bank account).mint ≡ mint)
      × ((runtime.token_account bank account).amount ≡ 1)

  -- The first two checks of a handler.
  guards_hold :
      {A : Type 0} (test : Bool) (r : Result (Unit {0})) (rest : Outcome A) {a : A}
      → (require test >> (lift r >> rest)) ≡ done a
      → (test ≡ true) × (r ≡ ok tt)
  guards_hold test r rest e =
      let (u, p, e1) = bind_finishes (require test) _ e in
      let (v, q, e2) = bind_finishes (lift r) _ e1 in (require_holds test p, lift_returns r q)

  is_holder :
      (test : Bool) (s : Signer) (account mint : ℕ)
      → (test ≡ true) × (verify_position_authority (runtime.token_account bank account) s ≡ ok tt)
      → (test ≡ true
          → ((runtime.token_account bank account).mint ≡ mint)
            × ((runtime.token_account bank account).amount ≡ 1))
      → IsHolder s account mint
  is_holder test s account mint (p, q) held =
      let (same, one) = held p in (verify_position_authority-MayAct _ s q, same, one)

  -- An instruction that changes, pays out or closes a position, or opens or closes a position of a
  -- bundle, finishes only if the token account that it is given holds the one token of the
  -- position's or the bundle's mint, and the signer is that account's owner, or its delegate for
  -- that one token.
  pub PositionCall-IsHolder :
      (s : Signer) (account mint : ℕ) → PositionCall s account mint → IsHolder s account mint
  unfolding increase_liquidity_handler decrease_liquidity_handler collect_fees_handler
      close_position_handler open_bundled_position_handler close_bundled_position_handler
      collect_reward_handler reward_position_constraints modify_constraints collect_fees_constraints
      close_position_constraints open_bundled_constraints close_bundled_constraints holds_position
      holds_bundle verify_position_bundle_authority
  PositionCall-IsHolder s account mint (increases_liquidity c n a b t result e) =
      is_holder _ s account mint (guards_hold (modify_constraints runtime bank c) _ _ e)
        λ h. ground arith
  PositionCall-IsHolder s account mint (decreases_liquidity c n a b t result e) =
      is_holder _ s account mint (guards_hold (modify_constraints runtime bank c) _ _ e)
        λ h. ground arith
  PositionCall-IsHolder s account mint (collects_fees c result e) =
      is_holder _ s account mint (guards_hold (collect_fees_constraints runtime bank c) _ _ e)
        λ h. ground arith
  PositionCall-IsHolder s account mint (collects_reward c index result e) =
      let (u, p, e1) = bind_finishes (require (reward_position_constraints runtime bank c)) _ e in
      let (reward, q, e2) =
        bind_finishes (lift (unwrap (entry? c.pool.content.reward_infos index))) _ e1 in
      let (test, verified) = guards_hold (reward_token_constraints runtime bank c reward) _ _ e2 in
      is_holder _ s account mint (require_holds _ p, verified) λ h. ground arith
  PositionCall-IsHolder s account mint (closes_position c bank' e) =
      is_holder _ s account mint (guards_hold (close_position_constraints runtime bank c) _ _ e)
        λ h. ground arith
  PositionCall-IsHolder s account mint (opens_bundled_position c index lower upper result e) =
      is_holder _ s account mint (guards_hold (open_bundled_constraints runtime bank c index) _ _ e)
        λ h. ground arith
  PositionCall-IsHolder s account mint (closes_bundled_position c index bundle e) =
      is_holder _ s account mint
        (guards_hold (close_bundled_constraints runtime bank c index) _ _ e) λ h. ground arith
