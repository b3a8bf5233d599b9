-- ===== src/Instructions/Trade/Mints.antt =====
-- A trade changes no account's mint, so that the constraints on the accounts of another pool hold
-- after it as before.
use elysium_dex.Base.{ℕ, ◌≡◌, refl, ap, ◌∙◌, subst, Bool, true, false}
use elysium_dex.Util.Authority.{Signer}
use elysium_dex.Instructions.Outcome.{done, invoke, bind_finishes, done_injective}
use elysium_dex.Instructions.Runtime.{
  Runtime, IsTransfer, transfer_from_owner_to_vault, transfer_from_vault_to_owner,
}
use elysium_dex.Instructions.Trade.{
  PoolAccounts, Calculated, TradeResult, pool_constraints, perform_swap, update_and_swap_pool,
  settle_swap,
}
use elysium_dex.Instructions.Transfers.{invoke_succeeds}

module _ {Bank : Type 0} (runtime : Runtime Bank) (laws : IsTransfer runtime) where
  -- No account is of another mint afterwards.
  abbrev pub SameMints : Bank → Bank → Type 0
  SameMints bank bank' =
      (account : ℕ)
      → (runtime.token_account bank' account).mint ≡ (runtime.token_account bank account).mint

  transfers-SameMints :
      (bank middle bank' : Bank) (from to key amount from' to' key' amount' : ℕ)
      → invoke (runtime.transfer bank from to key amount) ≡ done middle
      → invoke (runtime.transfer middle from' to' key' amount') ≡ done bank'
      → SameMints bank bank'
  transfers-SameMints bank middle bank' f t k n f' t' k' n' p q account =
      laws.keeps_mint middle bank' f' t' k' n' account (invoke_succeeds _ q)
      ∙ laws.keeps_mint bank middle f t k n account (invoke_succeeds _ p)

  perform_swap-SameMints :
      (bank bank' : Bank) (acc : PoolAccounts) (authority : Signer) (amount_a amount_b : ℕ)
      (a_to_b : Bool)
      → perform_swap runtime bank acc authority amount_a amount_b a_to_b ≡ done bank'
      → SameMints bank bank'
  unfolding perform_swap transfer_from_owner_to_vault transfer_from_vault_to_owner
  perform_swap-SameMints bank bank' acc s m n true h =
      let (middle, p, q) =
        bind_finishes
          (invoke (runtime.transfer bank acc.token_owner_account_a acc.token_vault_a s.key m)) _
          h in
      transfers-SameMints bank middle bank' _ _ _ m _ _ _ n p q
  perform_swap-SameMints bank bank' acc s m n false h =
      let (middle, p, q) =
        bind_finishes
          (invoke (runtime.transfer bank acc.token_owner_account_b acc.token_vault_b s.key n)) _
          h in
      transfers-SameMints bank middle bank' _ _ _ n _ _ _ m p q

  pub settle_swap-SameMints :
      (bank : Bank) (acc : PoolAccounts) (authority : Signer) (c : Calculated) (a_to_b : Bool)
      (timestamp : ℕ) (result : TradeResult Bank)
      → settle_swap runtime bank acc authority c a_to_b timestamp ≡ done result
      → SameMints bank result.0
  unfolding settle_swap update_and_swap_pool
  settle_swap-SameMints bank acc s c a_to_b t result h =
      let (settled, p, q) =
        bind_finishes (update_and_swap_pool runtime bank acc s c.0 a_to_b t) _ h in
      let (bank', r, v) =
        bind_finishes (perform_swap runtime bank acc s c.0.amount_a c.0.amount_b a_to_b) _ p in
      subst (SameMints bank) (ap (λ z. z.0) (done_injective v) ∙ ap (λ z. z.0) (done_injective q))
        (perform_swap-SameMints bank bank' acc s c.0.amount_a c.0.amount_b a_to_b r)

  -- The constraints on the accounts of a pool read no more of the token accounts than their mints.
  pub pool_constraints-SameMints :
      (bank bank' : Bank) (acc : PoolAccounts)
      → SameMints bank bank'
      → pool_constraints runtime bank' acc ≡ pool_constraints runtime bank acc
  unfolding pool_constraints
  pool_constraints-SameMints bank bank' acc same =
      rw (same acc.token_owner_account_a, same acc.token_owner_account_b) refl
