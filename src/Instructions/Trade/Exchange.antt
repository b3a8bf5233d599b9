-- ===== src/Instructions/Trade/Exchange.antt =====
-- What a swap does to the token accounts.
use elysium_dex.Base.{
  ℕ, ◌≤◌, ◌<◌, ◌≡◌, ◌≢◌, sym, ap, subst, ◌∙◌, arith, Bool, true, false, ◌&&◌, Option, none, some,
  if◌then◌else◌,
}
use elysium_dex.Base.Int.{ℤ}
use elysium_dex.Base.Words.{u64_mod}
use elysium_dex.Errors.{Result, ok, err, panic}
use elysium_dex.Util.Authority.{Signer, to_timestamp_u64}
use elysium_dex.Manager.Swap.{PostSwapUpdate}
use elysium_dex.Manager.Swap.Loop.{Fills, swap-Fills}
use elysium_dex.Instructions.Outcome.{
  done, lift, invoke, in_rounds, require, bind_finishes, require_holds, done_injective,
}
use elysium_dex.Instructions.Runtime.{
  Runtime, IsTransfer, transfer_from_owner_to_vault, transfer_from_vault_to_owner,
}
use elysium_dex.Instructions.Transfers.{Exchanges, invoke_succeeds, transfers-Exchanges}
use elysium_dex.Instructions.Trade.{
  PoolAccounts, Calculated, SwapArguments, TradeResult, input_amount, output_amount,
  check_threshold, calculate_swap, load_arrays, pool_constraints, perform_swap,
  update_and_swap_pool, settle_swap, swap_handler,
}

-- The accounts that the owner pays from and is paid to, and the vaults on the other side.
abbrev pub owner_in : Bool → PoolAccounts → ℕ
owner_in a_to_b acc = if a_to_b then acc.token_owner_account_a else acc.token_owner_account_b

abbrev pub vault_in : Bool → PoolAccounts → ℕ
vault_in a_to_b acc = if a_to_b then acc.token_vault_a else acc.token_vault_b

abbrev pub owner_out : Bool → PoolAccounts → ℕ
owner_out a_to_b acc = if a_to_b then acc.token_owner_account_b else acc.token_owner_account_a

abbrev pub vault_out : Bool → PoolAccounts → ℕ
vault_out a_to_b acc = if a_to_b then acc.token_vault_b else acc.token_vault_a

-- The four token accounts of a trade are different ones.
abbrev pub AreDistinct : PoolAccounts → Type 0
AreDistinct acc =
    (acc.token_owner_account_a ≢ acc.token_vault_a)
    × (acc.token_owner_account_a ≢ acc.token_owner_account_b)
    × (acc.token_owner_account_a ≢ acc.token_vault_b)
    × (acc.token_owner_account_b ≢ acc.token_vault_a)
    × (acc.token_owner_account_b ≢ acc.token_vault_b)
    × (acc.token_vault_a ≢ acc.token_vault_b)

-- The limits that the arguments of a swap set on what is paid and what is received.
abbrev pub IsWithin : SwapArguments → (paid received : ℕ) → Type 0
IsWithin x paid received =
    (x.amount_specified_is_input ≡ true → (paid ≤ x.amount) × (x.other_amount_threshold ≤ received))
    × (x.amount_specified_is_input ≡ false
        → (received ≤ x.amount) × (paid ≤ x.other_amount_threshold))

module _ {Bank : Type 0} (runtime : Runtime Bank) where
  perform_swap-Exchanges :
      (laws : IsTransfer runtime) (bank bank' : Bank) (acc : PoolAccounts) (authority : Signer)
      (amount_a amount_b : ℕ) (a_to_b : Bool)
      → AreDistinct acc
      → perform_swap runtime bank acc authority amount_a amount_b a_to_b ≡ done bank'
      → Exchanges runtime bank bank'
          (owner_in a_to_b acc)
          (vault_in a_to_b acc)
          (vault_out a_to_b acc)
          (owner_out a_to_b acc)
          (if a_to_b then amount_a else amount_b)
          (if a_to_b then amount_b else amount_a)
  unfolding perform_swap transfer_from_owner_to_vault transfer_from_vault_to_owner
  perform_swap-Exchanges laws bank bank' acc s m n true (a, b, c, d, e, f) h =
      let (middle, p, q) =
        bind_finishes
          (invoke (runtime.transfer bank acc.token_owner_account_a acc.token_vault_a s.key m)) _
          h in
      transfers-Exchanges runtime laws bank middle bank' _ _ _ _ _ _ m n (a, c, b)
        (f, λ g. d (sym g), λ g. e (sym g)) (invoke_succeeds _ p) (invoke_succeeds _ q)
  perform_swap-Exchanges laws bank bank' acc s m n false (a, b, c, d, e, f) h =
      let (middle, p, q) =
        bind_finishes
          (invoke (runtime.transfer bank acc.token_owner_account_b acc.token_vault_b s.key n)) _
          h in
      transfers-Exchanges runtime laws bank middle bank' _ _ _ _ _ _ n m (e, d, λ g. b (sym g))
        (λ g. f (sym g), λ g. c (sym g), λ g. a (sym g)) (invoke_succeeds _ p) (invoke_succeeds _ q)

  -- What a swap that finishes has done, in order.
  abbrev pub IsSwapRun :
      ℕ
      → Bank
      → PoolAccounts
      → Signer
      → SwapArguments
      → ℤ
      → Calculated
      → ℕ
      → TradeResult Bank
      → Type 0
  IsSwapRun fuel bank acc authority x time c timestamp result =
      ((authority.is_signer && pool_constraints runtime bank acc) ≡ true)
      × (lift (to_timestamp_u64 time) ≡ done timestamp)
      × (calculate_swap fuel acc x.amount x.sqrt_price_limit x.amount_specified_is_input x.a_to_b
            timestamp
          ≡ done c)
      × (check_threshold x.amount_specified_is_input x.other_amount_threshold
            (output_amount x.a_to_b c.0) (input_amount x.a_to_b c.0)
          ≡ done tt)
      × (settle_swap runtime bank acc authority c x.a_to_b timestamp ≡ done result)

  pub swap_handler-inverts :
      (fuel : ℕ) (bank : Bank) (acc : PoolAccounts) (authority : Signer) (x : SwapArguments)
      (time : ℤ) (result : TradeResult Bank)
      → swap_handler runtime fuel bank acc authority x time ≡ done result
      → (c : Calculated) × (timestamp : ℕ) × IsSwapRun fuel bank acc authority x time c timestamp
          result
  unfolding swap_handler
  swap_handler-inverts fuel bank acc s x time result h =
      let (u, signed, h1) =
        bind_finishes (require (s.is_signer && pool_constraints runtime bank acc)) _ h in
      let (t, clock, h2) = bind_finishes (lift (to_timestamp_u64 time)) _ h1 in
      let (c, calculated, h3) =
        bind_finishes
          (calculate_swap fuel acc x.amount x.sqrt_price_limit x.amount_specified_is_input x.a_to_b
            t)
          _ h2 in
      let (v, checked, settled) =
        bind_finishes
          (check_threshold x.amount_specified_is_input x.other_amount_threshold
            (output_amount x.a_to_b c.0) (input_amount x.a_to_b c.0))
          _ h3 in
      (c, t, (require_holds _ signed, clock, calculated, checked, settled))

  pub swap_handler-runs :
      (fuel : ℕ) (bank : Bank) (acc : PoolAccounts) (authority : Signer) (x : SwapArguments)
      (time : ℤ) (c : Calculated) (timestamp : ℕ) (result : TradeResult Bank)
      → IsSwapRun fuel bank acc authority x time c timestamp result
      → swap_handler runtime fuel bank acc authority x time ≡ done result
  unfolding swap_handler
  swap_handler-runs fuel bank acc s x time c t result (a, b, d, e, f) = rw (a, b, d, e) f

  settle_swap-Exchanges :
      (laws : IsTransfer runtime) (bank : Bank) (acc : PoolAccounts) (authority : Signer)
      (c : Calculated) (a_to_b : Bool) (timestamp : ℕ) (result : TradeResult Bank)
      → AreDistinct acc
      → settle_swap runtime bank acc authority c a_to_b timestamp ≡ done result
      → Exchanges runtime bank result.0
          (owner_in a_to_b acc)
          (vault_in a_to_b acc)
          (vault_out a_to_b acc)
          (owner_out a_to_b acc)
          (input_amount a_to_b c.0)
          (output_amount a_to_b c.0)
  unfolding settle_swap update_and_swap_pool input_amount output_amount
  settle_swap-Exchanges laws bank acc s c a_to_b t result distinct h =
      let (settled, p, q) =
        bind_finishes (update_and_swap_pool runtime bank acc s c.0 a_to_b t) _ h in
      let (bank', r, v) =
        bind_finishes (perform_swap runtime bank acc s c.0.amount_a c.0.amount_b a_to_b) _ p in
      subst
        (λ end.
          Exchanges runtime bank end (owner_in a_to_b acc) (vault_in a_to_b acc)
            (vault_out a_to_b acc) (owner_out a_to_b acc) (input_amount a_to_b c.0)
            (output_amount a_to_b c.0))
        (ap (λ z. z.0) (done_injective v) ∙ ap (λ z. z.0) (done_injective q))
        (perform_swap-Exchanges laws bank bank' acc s c.0.amount_a c.0.amount_b a_to_b distinct r)

check_threshold-IsWithin :
    (x : SwapArguments) (u : PostSwapUpdate) (limit : ℕ)
    → Fills x.amount limit x.amount_specified_is_input x.a_to_b u
    → check_threshold x.amount_specified_is_input x.other_amount_threshold
        (output_amount x.a_to_b u)
        (input_amount x.a_to_b u)
      ≡ done tt
    → IsWithin x (input_amount x.a_to_b u) (output_amount x.a_to_b u)
unfolding check_threshold input_amount output_amount
check_threshold-IsWithin x u limit fills e = ground arith

pub in_rounds_finishes :
    {A : Type 0} (o : Option (Result A)) {a : A} → in_rounds o ≡ done a → o ≡ some (ok a)
in_rounds_finishes none e = cc
in_rounds_finishes (some (ok a)) e = grind arith
in_rounds_finishes (some (err code)) e = cc
in_rounds_finishes (some panic) e = cc

calculate_swap-Fills :
    (fuel : ℕ) (acc : PoolAccounts) (amount limit : ℕ) (is_input a_to_b : Bool) (timestamp : ℕ)
    (c : Calculated)
    → amount < u64_mod
    → calculate_swap fuel acc amount limit is_input a_to_b timestamp ≡ done c
    → Fills amount limit is_input a_to_b c.0
unfolding calculate_swap
calculate_swap-Fills fuel acc amount limit is_input a_to_b t c h e =
    swap-Fills fuel acc.pool.content (load_arrays acc.tick_arrays) c.1 amount limit is_input a_to_b
      t c.0 h (in_rounds_finishes _ e)

-- Where transfers are as `IsTransfer` says, a swap of a `u64` amount that finishes, between four
-- different accounts, has been signed. It has moved one amount of the token that goes in from the
-- owner's account to the vault, one of the token that comes out from the vault to the owner's other
-- account, and nothing else; and both amounts are within what the arguments allow.
pub swap_handler-Exchanges :
    {Bank : Type 0} (runtime : Runtime Bank) (laws : IsTransfer runtime) (fuel : ℕ) (bank : Bank)
    (acc : PoolAccounts) (authority : Signer) (x : SwapArguments) (time : ℤ)
    (result : TradeResult Bank)
    → x.amount < u64_mod
    → AreDistinct acc
    → swap_handler runtime fuel bank acc authority x time ≡ done result
    → (authority.is_signer ≡ true)
      × (paid : ℕ) × (received : ℕ) × Exchanges runtime bank result.0
          (owner_in x.a_to_b acc)
          (vault_in x.a_to_b acc)
          (vault_out x.a_to_b acc)
          (owner_out x.a_to_b acc)
          paid
          received
      × IsWithin x paid received
swap_handler-Exchanges runtime laws fuel bank acc s x time result h distinct e =
    let (c, t, (allowed, clock, calculated, checked, settled)) =
      swap_handler-inverts runtime fuel bank acc s x time result e in
    let fills =
      calculate_swap-Fills fuel acc x.amount x.sqrt_price_limit x.amount_specified_is_input x.a_to_b
        t c h calculated in
    (
      ground arith,
      input_amount x.a_to_b c.0,
      output_amount x.a_to_b c.0,
      settle_swap-Exchanges runtime laws bank acc s c x.a_to_b t result distinct settled,
      check_threshold-IsWithin x c.0 x.sqrt_price_limit fills checked,
    )
