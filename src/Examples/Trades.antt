-- ===== src/Examples/Trades.antt =====
-- A token program, and trades that it settles.
use elysium_dex.Base.{
  ℕ, ◌+◌, ◌-◌, ◌≡◌, ◌≢◌, refl, subst, arith, ◌||◌, [], ◌∷◌, Bool, true, false, Option, none, some,
  leb, ◌==◌, if◌then◌else◌,
}
use elysium_dex.Base.Int.{pos, ◌+ℤ◌, ◌-ℤ◌, ◌*ℤ◌}
use elysium_dex.State.Pool.{ElysiumPool}
use elysium_dex.State.TickArray.{TickArray, default_tick_array}
use elysium_dex.Util.Authority.{TokenAccount, Signer, to_timestamp_u64}
use elysium_dex.State.Pool.{update_after_swap}
use elysium_dex.Util.SwapTickSequence.{new_sequence, get_next_initialized_tick_index}
use elysium_dex.Manager.Swap.{
  swap, PostSwapUpdate, swap_loop, start_swap, trade_amounts, calculate_fees,
}
use elysium_dex.Instructions.Outcome.{done, lift, Account}
use elysium_dex.Instructions.Runtime.{
  bundle_nft_name, Runtime, IsTransfer, transfer_from_owner_to_vault, transfer_from_vault_to_owner,
}
use elysium_dex.Instructions.Transfers.{Exchanges}
use elysium_dex.Instructions.Trade.{
  PoolAccounts, TickArrayAccounts, Traded, Calculated, SwapArguments, TwoHopArguments, TradeResult,
  swap_handler, two_hop_swap_handler, calculate_two_hops, calculate_swap, load_arrays,
  check_threshold, settle_swap, update_and_swap_pool, perform_swap, input_amount, output_amount,
}
use elysium_dex.Instructions.Trade.Exchange.{IsWithin, swap_handler-Exchanges}
use elysium_dex.Instructions.Trade.Hops.{
  first_hop, second_hop, AreCalculated, two_hop_swap_handler-eq-swap_handler,
}
use elysium_dex.Examples.Pools.{fresh}

-- The token accounts by their keys.
abbrev pub Ledger : Type 0
Ledger = ℕ → TokenAccount

abbrev with_amount : Ledger → ℕ → ℕ → Ledger
with_amount ledger account amount k =
    if k == account then record (ledger k) { amount = amount } else ledger k

-- A transfer that the owner or a delegate has to sign is taken as signed.
unfoldable pub move_tokens : Ledger → ℕ → ℕ → ℕ → ℕ → Option Ledger
move_tokens ledger from to authority amount =
    let taken = with_amount ledger from ((ledger from).amount - amount) in
    if leb amount (ledger from).amount
    then some (with_amount taken to ((taken to).amount + amount))
    else none

abbrev pub token_program : Runtime Ledger
token_program = record {
  address = λ seeds. 50;
  key_text = λ key. "11111111111111111111111111111111";
  token_account = λ ledger k. ledger k;
  transfer = move_tokens;
  mint_to = λ ledger mint account authority amount.
      some (with_amount ledger account ((ledger account).amount + amount));
  remove_mint_authority = λ ledger mint authority. some ledger;
  burn = λ ledger account mint authority amount.
      some (with_amount ledger account ((ledger account).amount - amount));
  close_account = λ ledger account receiver authority. some ledger;
  create_metadata =
      λ ledger metadata mint mint_authority payer update_authority name symbol uri. some ledger;
}

-- The accounts after a transfer that goes through.
abbrev pub moved : Ledger → ℕ → ℕ → ℕ → Ledger
moved ledger from to amount =
    let taken = with_amount ledger from ((ledger from).amount - amount) in
    with_amount taken to ((taken to).amount + amount)

if_moved :
    (enough : Bool) (l l' : Ledger)
    → (if enough then some l else none) ≡ some l'
    → (enough ≡ true) × (l ≡ l')
if_moved true l l' e = (refl, cc)
if_moved false l l' e = cc

move_tokens-moved :
    (l l' : Ledger) (from to s amount : ℕ)
    → move_tokens l from to s amount ≡ some l'
    → (leb amount (l from).amount ≡ true) × (moved l from to amount ≡ l')
unfolding move_tokens
move_tokens-moved l l' from to s amount e =
    if_moved (leb amount (l from).amount) (moved l from to amount) l' e

moved-pays :
    (l : Ledger) (from to n : ℕ)
    → leb n (l from).amount ≡ true
    → from ≢ to
    → ((moved l from to n from).amount + n ≡ (l from).amount)
      × ((moved l from to n to).amount ≡ (l to).amount + n)
moved-pays l from to n e d = ground arith

moved-keeps :
    (l : Ledger) (from to n other : ℕ)
    → other ≢ from
    → other ≢ to
    → (moved l from to n other).amount ≡ (l other).amount
moved-keeps l from to n other d f = ground arith

moved-keeps_mint :
    (l : Ledger) (from to n other : ℕ) → (moved l from to n other).mint ≡ (l other).mint
moved-keeps_mint l from to n other = ground arith

pub token_program-IsTransfer : IsTransfer token_program
token_program-IsTransfer = record {
  pays = λ l l' from to s n e d.
      let (enough, same) = move_tokens-moved l l' from to s n e in
      subst (λ z. ((z from).amount + n ≡ (l from).amount) × ((z to).amount ≡ (l to).amount + n))
        same (moved-pays l from to n enough d);
  keeps = λ l l' from to s n other e d f.
      let (enough, same) = move_tokens-moved l l' from to s n e in
      subst (λ z. (z other).amount ≡ (l other).amount) same (moved-keeps l from to n other d f);
  keeps_mint = λ l l' from to s n other e.
      let (enough, same) = move_tokens-moved l l' from to s n e in
      subst (λ z. (z other).mint ≡ (l other).mint) same (moved-keeps_mint l from to n other);
}

-- The owner is 1. The account 61 holds the token 10 and 62 the token 20; 51 is of another token.
abbrev pub holdings : Ledger
holdings k = record {
  mint = if k == 11 || k == 61 then 10 else if k == 21 || k == 62 then 20 else 5;
  amount = 5000;
  owner = 1;
  delegate = none;
  delegated_amount = 0;
}

abbrev pub owner : Signer
owner = record { key = 1; is_signer = true }

abbrev pub pool : ElysiumPool
pool = record fresh { liquidity = 1_000_000_000_000 }

abbrev array : Account TickArray
array = record { key = 40; content = record default_tick_array { pool = 30 } }

-- One tick array, given three times.
abbrev pub pool_accounts : PoolAccounts
pool_accounts = record {
  pool = record { key = 30; content = pool };
  token_owner_account_a = 61;
  token_vault_a = 11;
  token_owner_account_b = 62;
  token_vault_b = 21;
  tick_arrays = record { at_0 = array; at_1 = array; at_2 = array };
  oracle = 50;
}

abbrev pub arguments : SwapArguments
arguments = record {
  amount = 1000;
  other_amount_threshold = 996;
  sqrt_price_limit = 19_000_000_000_000_000_000;
  amount_specified_is_input = true;
  a_to_b = false;
}

abbrev pub after_swap : ElysiumPool
after_swap = record pool { sqrt_price = 18446744092100955457; fee_growth_global_b = 55340232 }

abbrev pub result : TradeResult Ledger
result = (
  moved (moved holdings 62 21 1000) 11 61 996,
  record { pool = after_swap; tick_arrays = array.content ∷ [] },
)

pub swap_handler_runs :
    swap_handler token_program 2 holdings pool_accounts owner arguments (pos 0) ≡ done result
unfolding swap_handler elysium_dex.Instructions.Trade.pool_constraints to_timestamp_u64
    calculate_swap load_arrays new_sequence check_threshold settle_swap update_and_swap_pool
    perform_swap transfer_from_owner_to_vault transfer_from_vault_to_owner input_amount
    output_amount update_after_swap move_tokens swap elysium_dex.Manager.Swap.run_swap
    elysium_dex.Manager.Swap.check_swap elysium_dex.Manager.Pool.next_pool_reward_infos
    elysium_dex.Manager.Swap.finish_loop elysium_dex.Manager.Swap.finish_swap swap_loop start_swap
    elysium_dex.Manager.Swap.swap_step get_next_initialized_tick_index
    elysium_dex.State.TickArray.in_search_range ◌-ℤ◌ ◌+ℤ◌ ◌*ℤ◌
    elysium_dex.State.TickArray.tick_offset elysium_dex.State.TickArray.search
    elysium_dex.Manager.Swap.get_next_sqrt_prices elysium_dex.Math.Swap.compute_swap
    elysium_dex.Manager.Swap.settle trade_amounts calculate_fees elysium_dex.Manager.Swap.move_tick
    elysium_dex.State.TickArray.get_next_init_tick_index
    elysium_dex.Math.Tick.tick_index_from_sqrt_price
swap_handler_runs = refl

swap_handler-Exchanges_example :
    (owner.is_signer ≡ true)
    × (paid : ℕ) × (received : ℕ) × Exchanges token_program holdings result.0 62 21 11 61 paid
        received
    × IsWithin arguments paid received
swap_handler-Exchanges_example =
    swap_handler-Exchanges token_program token_program-IsTransfer 2 holdings pool_accounts owner
      arguments (pos 0) result (omega arith) (ground arith) swap_handler_runs

-- A pool of the tokens 5 and 10.
abbrev next_pool : ElysiumPool
next_pool = record pool {
  token_mint_a = 5;
  token_vault_a = 71;
  token_mint_b = 10;
  token_vault_b = 72;
}

abbrev next_array : Account TickArray
next_array = record { key = 41; content = record default_tick_array { pool = 31 } }

abbrev next_accounts : PoolAccounts
next_accounts = record {
  pool = record { key = 31; content = next_pool };
  token_owner_account_a = 63;
  token_vault_a = 71;
  token_owner_account_b = 61;
  token_vault_b = 72;
  tick_arrays = record { at_0 = next_array; at_1 = next_array; at_2 = next_array };
  oracle = 50;
}

abbrev two_hops : TwoHopArguments
two_hops = record {
  amount = 1000;
  other_amount_threshold = 990;
  amount_specified_is_input = true;
  a_to_b_one = false;
  a_to_b_two = false;
  sqrt_price_limit_one = 19_000_000_000_000_000_000;
  sqrt_price_limit_two = 19_000_000_000_000_000_000;
}

abbrev after_both : Ledger × Traded × Traded
after_both = (
  moved (moved result.0 61 72 996) 71 63 992,
  result.1,
  record {
    pool = record next_pool { sqrt_price = 18446744092027168481; fee_growth_global_b = 55340232 };
    tick_arrays = next_array.content ∷ [];
  },
)

two_hop_swap_handler_runs :
    two_hop_swap_handler token_program 2 holdings pool_accounts next_accounts owner two_hops (pos 0)
    ≡ done after_both
unfolding two_hop_swap_handler calculate_two_hops elysium_dex.Instructions.Trade.pool_constraints
    to_timestamp_u64 calculate_swap load_arrays new_sequence check_threshold settle_swap
    update_and_swap_pool perform_swap transfer_from_owner_to_vault transfer_from_vault_to_owner
    input_amount output_amount update_after_swap move_tokens swap elysium_dex.Manager.Swap.run_swap
    elysium_dex.Manager.Swap.check_swap elysium_dex.Manager.Pool.next_pool_reward_infos
    elysium_dex.Manager.Swap.finish_loop elysium_dex.Manager.Swap.finish_swap swap_loop start_swap
    elysium_dex.Manager.Swap.swap_step get_next_initialized_tick_index
    elysium_dex.State.TickArray.in_search_range ◌-ℤ◌ ◌+ℤ◌ ◌*ℤ◌
    elysium_dex.State.TickArray.tick_offset elysium_dex.State.TickArray.search
    elysium_dex.Manager.Swap.get_next_sqrt_prices elysium_dex.Math.Swap.compute_swap
    elysium_dex.Manager.Swap.settle trade_amounts calculate_fees elysium_dex.Manager.Swap.move_tick
    elysium_dex.State.TickArray.get_next_init_tick_index
    elysium_dex.Math.Tick.tick_index_from_sqrt_price
two_hop_swap_handler_runs = refl

two_hop_swap_handler-eq-swap_handler_example :
    (c : Calculated × Calculated) × (timestamp : ℕ) × (middle : Ledger) × (lift
        (to_timestamp_u64 (pos 0))
      ≡ done timestamp)
    × AreCalculated 2 pool_accounts next_accounts two_hops timestamp c
    × (swap_handler token_program 2 holdings pool_accounts owner (first_hop two_hops c) (pos 0)
        ≡ done (middle, after_both.1))
    × (swap_handler token_program 2 middle next_accounts owner (second_hop two_hops c) (pos 0)
        ≡ done (after_both.0, after_both.2))
    × (pool_accounts.pool.key ≢ next_accounts.pool.key)
    × (pool.token_mint_a ≡ next_pool.token_mint_b)
two_hop_swap_handler-eq-swap_handler_example =
    two_hop_swap_handler-eq-swap_handler token_program token_program-IsTransfer 2 holdings
      pool_accounts next_accounts owner two_hops (pos 0) after_both two_hop_swap_handler_runs

bundle_name : bundle_nft_name token_program 99 ≡ done "Orca Position Bundle 1111...1111"
unfolding bundle_nft_name
bundle_name = refl
