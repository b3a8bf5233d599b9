-- ===== src/Lib.antt =====
-- Elysium, a decentralised exchange with concentrated liquidity: a Solana program (programs/elysium)
-- whose pools trade two tokens along a grid of price ticks.
--
-- Parts, and how they interact. A pool keeps its price, the index of the current tick, the
-- liquidity at that price, and the global growths of fees and rewards per unit of liquidity. Ticks
-- are stored 88 to an array, each with the liquidity that starts or ends there and the growths
-- outside it. A position keeps its liquidity and the growths that it has been paid for. A swap
-- walks over the ticks of up to three arrays; a change of liquidity updates a pool, a position and
-- the two ticks that bound it.
--
-- Files, and the code under programs/elysium/src that each is about:
--   Errors            errors.rs; a `Result` is a value, an error code, or a panic
--   Math/U256         math/u256_math.rs (U256Muldiv; Multiply: mul, mul_u256; Divide: div, div_loop, fmt)
--   Math/Bit          math/bit_math.rs
--   Math/Liquidity    math/liquidity_math.rs
--   Math/Tick         math/tick_math.rs
--   Math/Token        math/token_math.rs
--   Math/Swap         math/swap_math.rs
--   State/Tick        state/tick.rs (Tick, TickUpdate)
--   State/TickArray   state/tick.rs (TickArray, get_offset)
--   State/RewardInfo, State/Pool   state/pool.rs
--   State/Position    state/position.rs
--   State/PositionBundle   state/position_bundle.rs
--   State/Config, State/FeeTier   state/config.rs, state/fee_tier.rs
--   Util/SwapTickSequence   util/swap_tick_sequence.rs
--   Util/Authority    util/util.rs
--   Manager/Tick, Manager/Pool, Manager/Position, Manager/Liquidity, Manager/Swap
--                     manager/tick_manager.rs and so on
--   Instructions      instructions/*.rs, the handlers with the constraints on their accounts
--     Trade           swap.rs, two_hop_swap.rs, util/swap_utils.rs
--     Liquidity       increase_liquidity.rs, decrease_liquidity.rs, update_fees_and_rewards.rs
--     Collect         collect_fees.rs, collect_protocol_fees.rs, collect_reward.rs
--     Positions, Bundles   open_position.rs, close_position.rs, and those of bundles
--     Setup, Admin    initialize_*.rs, set_*.rs
--     Runtime         util/token.rs, constants/nft.rs, and the programs that are called
--     Outcome         results of an instruction, and the accounts that it is given
--     Transfers       what transfers do to the token accounts
--     Signed, Lifetime   relations over the handlers: signatures, and the pool's life
--   Program           lib.rs: the instructions, and the handler that each calls
--   Base              words, integers, lists and Boolean tests that the others share
--   Examples          runs at concrete data
-- The children of a module hold what is proved about it. A function has the name it has in the
-- code; a part of a long function has a name of its own and a comment that says which part it is.
--
-- Numbers. A `uN` is a natural number and an `iN` an integer. The release build does not check for
-- overflow, so `+`, `-` and `*` wrap, written out in Base/Words; `checked_*` and `wrapping_*` are
-- as in Rust. Casts cut off the high bits. An index out of bounds, an `unwrap` of nothing and a
-- division by zero are `panic`. Public keys are numbers, and the default key is 0.
--
-- State. A method that changes its receiver returns it. Where a call fails the caller's state is
-- not returned, as a failed transaction changes nothing. The lower and the upper tick array of a
-- position may be one account: `TickArrayPair` tells the two cases apart.
--
-- Loops. Most are structural. The search over the tick arrays takes the next array each round, so
-- its fuel is one more than their number. The correction of a quotient digit in the division of
-- 256-bit numbers ends after at most two rounds, since each adds the divisor's top word, which has
-- its high bit set; its fuel is 3. Shifts by words take at most 4 rounds. The loop of `swap` takes
-- its fuel as an argument, and `none` is a loop that has run out of it.
--
-- Instructions. A handler gets the state of the token program (`Bank`) and its accounts as values,
-- and returns the ones that it writes, or a `Failure`. The attributes of its accounts are one
-- Boolean test before its body. The token program, the metadata program and the derivation of
-- addresses are the parameter `Runtime`; `IsTransfer` is what the token program documents of a
-- transfer, and Examples/Trades has an instance of both.
--
-- Not modelled: the creation and closing of accounts, which Anchor does, with the bumps that it finds;
-- the Borsh type of math/bn.rs; and the TypeScript SDK.
pub mod Base
pub mod Errors
pub mod Math
pub mod State
pub mod Util
pub mod Manager
pub mod Instructions
pub mod Program
pub mod Examples
