-- ===== src/Instructions/Trade.antt =====
-- programs/elysium/src/instructions/swap.rs, two_hop_swap.rs and util/swap_utils.rs: trading.
pub mod Exchange
pub mod Mints
pub mod Hops
use elysium_dex.Base.{ℕ, Bool, true, false, not, ◌&&◌, ◌||◌, none, some, ltb, ◌==◌, if◌then◌else◌}
use elysium_dex.Base.Int.{ℤ}
use elysium_dex.Errors.{
  amount_out_below_minimum, amount_in_above_maximum, duplicate_two_hop_pool,
  invalid_intermediary_mint, fail_if,
}
use elysium_dex.State.Pool.{ElysiumPool, update_after_swap}
use elysium_dex.State.TickArray.{TickArray}
use elysium_dex.Util.Authority.{Signer, to_timestamp_u64}
use elysium_dex.Util.SwapTickSequence.{SwapTickSequence, new_sequence}
use elysium_dex.Manager.Swap.{PostSwapUpdate, swap}
use elysium_dex.Instructions.Outcome.{Outcome, done, lift, in_rounds, require, Account, ◌>>=◌, ◌>>◌}
use elysium_dex.Instructions.Runtime.{
  Runtime, oracle_seeds, transfer_from_owner_to_vault, transfer_from_vault_to_owner,
}

-- The three accounts of tick arrays that a swap is given.
pub record TickArrayAccounts : Type 0 where
  pub at_0 : Account TickArray
  pub at_1 : Account TickArray
  pub at_2 : Account TickArray

-- An account that has been loaded already cannot be loaded again, and is left out.
unfoldable pub load_arrays : TickArrayAccounts → SwapTickSequence
unfolding new_sequence
load_arrays t =
    let again_1 = t.at_1.key == t.at_0.key in
    let again_2 = t.at_2.key == t.at_0.key || t.at_2.key == t.at_1.key in
    new_sequence t.at_0.content (if again_1 then none else some t.at_1.content)
      (if again_2 then none else some t.at_2.content)

abbrev tick_arrays_of_pool : TickArrayAccounts → ℕ → Bool
tick_arrays_of_pool t pool_key =
    t.at_0.content.pool == pool_key
    && t.at_1.content.pool == pool_key
    && t.at_2.content.pool == pool_key

-- The accounts of one pool in a trade: of the token accounts, the keys.
pub record PoolAccounts : Type 0 where
  pub pool : Account ElysiumPool
  pub token_owner_account_a : ℕ
  pub token_vault_a : ℕ
  pub token_owner_account_b : ℕ
  pub token_vault_b : ℕ
  pub tick_arrays : TickArrayAccounts
  pub oracle : ℕ

-- A pool and the tick arrays of a trade in it, as the trade leaves them.
pub record Traded : Type 0 where
  pub pool : ElysiumPool
  pub tick_arrays : SwapTickSequence

unfoldable pub input_amount : Bool → PostSwapUpdate → ℕ
input_amount a_to_b u = if a_to_b then u.amount_a else u.amount_b

unfoldable pub output_amount : Bool → PostSwapUpdate → ℕ
output_amount a_to_b u = if a_to_b then u.amount_b else u.amount_a

-- The limit on the amount that is not specified: of the output where the input is specified.
unfoldable pub check_threshold : Bool → (threshold output input : ℕ) → Outcome (Unit {0})
check_threshold amount_specified_is_input threshold output input = lift (
    if amount_specified_is_input
    then fail_if (ltb output threshold) amount_out_below_minimum
    else fail_if (ltb threshold input) amount_in_above_maximum)

-- The arguments of the handler of `swap`.
pub record SwapArguments : Type 0 where
  pub amount : ℕ
  pub other_amount_threshold : ℕ
  pub sqrt_price_limit : ℕ
  pub amount_specified_is_input : Bool
  pub a_to_b : Bool

-- The arguments of the handler of `two_hop_swap`.
pub record TwoHopArguments : Type 0 where
  pub amount : ℕ
  pub other_amount_threshold : ℕ
  pub amount_specified_is_input : Bool
  pub a_to_b_one : Bool
  pub a_to_b_two : Bool
  pub sqrt_price_limit_one : ℕ
  pub sqrt_price_limit_two : ℕ

-- A calculated trade: what `swap` returns, and the tick arrays that it has written.
abbrev pub Calculated : Type 0
Calculated = PostSwapUpdate × SwapTickSequence

-- `swap` on the accounts of a pool; the first argument is the fuel of its loop.
unfoldable pub calculate_swap :
    ℕ → PoolAccounts → (amount limit : ℕ) → (is_input a_to_b : Bool) → ℕ → Outcome Calculated
calculate_swap fuel acc amount limit is_input a_to_b timestamp = in_rounds (
    swap fuel acc.pool.content (load_arrays acc.tick_arrays) amount limit is_input a_to_b timestamp)

-- The two calculations of `two_hop_swap`: from the first to the second for a specified input, and
-- backwards for a specified output.
unfoldable pub calculate_two_hops :
    ℕ → PoolAccounts → PoolAccounts → TwoHopArguments → ℕ → Outcome (Calculated × Calculated)
calculate_two_hops fuel one two x timestamp =
    if x.amount_specified_is_input
    then (do
      first ← calculate_swap fuel one x.amount x.sqrt_price_limit_one true x.a_to_b_one timestamp
      second ←
          calculate_swap fuel two (output_amount x.a_to_b_one first.0) x.sqrt_price_limit_two true
            x.a_to_b_two timestamp
      done (first, second))
    else (do
      second ← calculate_swap fuel two x.amount x.sqrt_price_limit_two false x.a_to_b_two timestamp
      first ←
          calculate_swap fuel one (input_amount x.a_to_b_two second.0) x.sqrt_price_limit_one false
            x.a_to_b_one timestamp
      done (first, second))

-- The mints of the two tokens that a trade takes and gives.
abbrev pub input_mint : Bool → ElysiumPool → ℕ
input_mint a_to_b p = if a_to_b then p.token_mint_a else p.token_mint_b

abbrev pub output_mint : Bool → ElysiumPool → ℕ
output_mint a_to_b p = if a_to_b then p.token_mint_b else p.token_mint_a

-- What a trade leaves: the state of the token program, the pool and its tick arrays.
abbrev pub TradeResult : Type 0 → Type 0
TradeResult Bank = Bank × Traded

module _ {Bank : Type 0} (runtime : Runtime Bank) where
  -- The attributes `constraint`, `address`, `has_one` and `seeds` of the accounts of one pool.
  unfoldable pub pool_constraints : Bank → PoolAccounts → Bool
  pool_constraints bank acc =
      let p = acc.pool.content in
      (runtime.token_account bank acc.token_owner_account_a).mint == p.token_mint_a
      && acc.token_vault_a == p.token_vault_a
      && (runtime.token_account bank acc.token_owner_account_b).mint == p.token_mint_b
      && acc.token_vault_b == p.token_vault_b
      && tick_arrays_of_pool acc.tick_arrays acc.pool.key
      && acc.oracle == runtime.address (oracle_seeds acc.pool.key)

  unfoldable pub perform_swap :
      Bank → PoolAccounts → Signer → (amount_a amount_b : ℕ) → Bool → Outcome Bank
  perform_swap bank acc authority amount_a amount_b a_to_b =
      if a_to_b
      then (do
        paid ←
            transfer_from_owner_to_vault runtime bank authority acc.token_owner_account_a
              acc.token_vault_a amount_a
        transfer_from_vault_to_owner runtime paid acc.pool.key acc.token_vault_b
            acc.token_owner_account_b amount_b)
      else (do
        paid ←
            transfer_from_owner_to_vault runtime bank authority acc.token_owner_account_b
              acc.token_vault_b amount_b
        transfer_from_vault_to_owner runtime paid acc.pool.key acc.token_vault_a
            acc.token_owner_account_a amount_a)

  -- With the pool after the swap.
  unfoldable pub update_and_swap_pool :
      Bank → PoolAccounts → Signer → PostSwapUpdate → Bool → ℕ → Outcome (Bank × ElysiumPool)
  update_and_swap_pool bank acc authority u is_token_fee_in_a timestamp = do
    let p =
        update_after_swap acc.pool.content u.next_liquidity u.next_tick_index u.next_sqrt_price
          u.next_fee_growth_global u.next_reward_infos u.next_protocol_fee is_token_fee_in_a
          timestamp
    bank' ← perform_swap bank acc authority u.amount_a u.amount_b is_token_fee_in_a
    done (bank', p)

  unfoldable pub settle_swap :
      Bank → PoolAccounts → Signer → Calculated → Bool → ℕ → Outcome (TradeResult Bank)
  settle_swap bank acc authority c a_to_b timestamp = do
    settled ← update_and_swap_pool bank acc authority c.0 a_to_b timestamp
    done (settled.0, record { pool = settled.1; tick_arrays = c.1 })

  -- swap.rs, `handler`, after the constraints on its accounts.
  unfoldable pub swap_handler :
      ℕ → Bank → PoolAccounts → Signer → SwapArguments → ℤ → Outcome (TradeResult Bank)
  swap_handler fuel bank acc authority x unix_timestamp = do
    require (authority.is_signer && pool_constraints bank acc)
    timestamp ← lift (to_timestamp_u64 unix_timestamp)
    c ←
        calculate_swap fuel acc x.amount x.sqrt_price_limit x.amount_specified_is_input x.a_to_b
          timestamp
    check_threshold x.amount_specified_is_input x.other_amount_threshold
        (output_amount x.a_to_b c.0) (input_amount x.a_to_b c.0)
    settle_swap bank acc authority c x.a_to_b timestamp

  -- two_hop_swap.rs, `handler`, after the constraints on its accounts.
  unfoldable pub two_hop_swap_handler :
      ℕ
      → Bank
      → (one two : PoolAccounts) → Signer
      → TwoHopArguments
      → ℤ
      → Outcome (Bank × Traded × Traded)
  two_hop_swap_handler fuel bank one two authority x unix_timestamp = do
    require (authority.is_signer && pool_constraints bank one && pool_constraints bank two)
    timestamp ← lift (to_timestamp_u64 unix_timestamp)
    lift (fail_if (one.pool.key == two.pool.key) duplicate_two_hop_pool)
    lift (
        fail_if
          (not
            (output_mint x.a_to_b_one one.pool.content == input_mint x.a_to_b_two two.pool.content))
          invalid_intermediary_mint)
    c ← calculate_two_hops fuel one two x timestamp
    check_threshold x.amount_specified_is_input x.other_amount_threshold
        (output_amount x.a_to_b_two c.1.0) (input_amount x.a_to_b_one c.0.0)
    first ← settle_swap bank one authority c.0 x.a_to_b_one timestamp
    second ← settle_swap first.0 two authority c.1 x.a_to_b_two timestamp
    done (second.0, first.1, second.1)
