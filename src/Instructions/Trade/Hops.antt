-- ===== src/Instructions/Trade/Hops.antt =====
-- A trade over two pools is one trade in each.
use elysium_dex.Base.{
  ℕ, ◌≡◌, ◌≢◌, refl, ap, ◌∙◌, subst, arith, Bool, true, false, not, ◌&&◌, ◌==◌, if◌then◌else◌,
}
use elysium_dex.Base.Int.{ℤ}
use elysium_dex.Errors.{fail_if, duplicate_two_hop_pool, invalid_intermediary_mint}
use elysium_dex.Util.Authority.{Signer, to_timestamp_u64}
use elysium_dex.Instructions.Outcome.{
  done, lift, require, bind_finishes, require_holds, done_injective,
}
use elysium_dex.Instructions.Runtime.{Runtime, IsTransfer}
use elysium_dex.Instructions.Trade.{
  PoolAccounts, Traded, Calculated, SwapArguments, TwoHopArguments, TradeResult, input_amount,
  output_amount, input_mint, output_mint, check_threshold, calculate_swap, calculate_two_hops,
  pool_constraints, settle_swap, swap_handler, two_hop_swap_handler,
}
use elysium_dex.Instructions.Trade.Exchange.{swap_handler-runs}
use elysium_dex.Instructions.Trade.Mints.{settle_swap-SameMints, pool_constraints-SameMints}

-- The swap in the first pool: as given for a specified input, and of what the second one takes for
-- a specified output.
abbrev pub first_hop : TwoHopArguments → Calculated × Calculated → SwapArguments
first_hop x c = record {
  amount = if x.amount_specified_is_input then x.amount else input_amount x.a_to_b_two c.1.0;
  other_amount_threshold = if x.amount_specified_is_input then 0 else x.other_amount_threshold;
  sqrt_price_limit = x.sqrt_price_limit_one;
  amount_specified_is_input = x.amount_specified_is_input;
  a_to_b = x.a_to_b_one;
}

-- The swap in the second pool: of what the first one gives for a specified input, and as given for
-- a specified output.
abbrev pub second_hop : TwoHopArguments → Calculated × Calculated → SwapArguments
second_hop x c = record {
  amount = if x.amount_specified_is_input then output_amount x.a_to_b_one c.0.0 else x.amount;
  other_amount_threshold =
      if x.amount_specified_is_input
      then x.other_amount_threshold
      else input_amount x.a_to_b_two c.1.0;
  sqrt_price_limit = x.sqrt_price_limit_two;
  amount_specified_is_input = x.amount_specified_is_input;
  a_to_b = x.a_to_b_two;
}

both_true : (a b : Bool) → a ≡ true → b ≡ true → (a && b) ≡ true
both_true a b p q = rw (p, q) refl

abbrev with_input : TwoHopArguments → Bool → TwoHopArguments
with_input x is_input = record x { amount_specified_is_input = is_input }

-- A calculated swap of given arguments.
abbrev pub IsCalculated : ℕ → PoolAccounts → SwapArguments → ℕ → Calculated → Type 0
IsCalculated fuel acc x timestamp c =
    calculate_swap fuel acc x.amount x.sqrt_price_limit x.amount_specified_is_input x.a_to_b
      timestamp
    ≡ done c

abbrev pub AreCalculated :
    ℕ → PoolAccounts → PoolAccounts → TwoHopArguments → ℕ → Calculated × Calculated → Type 0
AreCalculated fuel one two x t c =
    IsCalculated fuel one (first_hop x c) t c.0 × IsCalculated fuel two (second_hop x c) t c.1

-- What the swap of given arguments and a calculation is checked against.
abbrev IsAllowed : SwapArguments → Calculated → Type 0
IsAllowed x c =
    check_threshold x.amount_specified_is_input x.other_amount_threshold
      (output_amount x.a_to_b c.0) (input_amount x.a_to_b c.0)
    ≡ done tt

calculate_two_hops_at :
    (fuel : ℕ) (one two : PoolAccounts) (x : TwoHopArguments) (is_input : Bool) (t : ℕ)
    (c : Calculated × Calculated)
    → calculate_two_hops fuel one two (with_input x is_input) t ≡ done c
    → AreCalculated fuel one two (with_input x is_input) t c
unfolding calculate_two_hops
calculate_two_hops_at fuel one two x true t c e =
    let (first, p, e1) =
      bind_finishes (calculate_swap fuel one x.amount x.sqrt_price_limit_one true x.a_to_b_one t) _
        e in
    let (second, q, e2) =
      bind_finishes
        (calculate_swap fuel two (output_amount x.a_to_b_one first.0) x.sqrt_price_limit_two true
          x.a_to_b_two t)
        _ e1 in
    subst (AreCalculated fuel one two (with_input x true) t) (done_injective e2) (p, q)
calculate_two_hops_at fuel one two x false t c e =
    let (second, p, e1) =
      bind_finishes (calculate_swap fuel two x.amount x.sqrt_price_limit_two false x.a_to_b_two t) _
        e in
    let (first, q, e2) =
      bind_finishes
        (calculate_swap fuel one (input_amount x.a_to_b_two second.0) x.sqrt_price_limit_one false
          x.a_to_b_one t)
        _ e1 in
    subst (AreCalculated fuel one two (with_input x false) t) (done_injective e2) (q, p)

check_threshold_at :
    (x : TwoHopArguments) (is_input : Bool) (c : Calculated × Calculated)
    → check_threshold is_input x.other_amount_threshold
        (output_amount x.a_to_b_two c.1.0)
        (input_amount x.a_to_b_one c.0.0)
      ≡ done tt
    → IsAllowed (first_hop (with_input x is_input) c) c.0
      × IsAllowed (second_hop (with_input x is_input) c) c.1
unfolding check_threshold
check_threshold_at x true c e = ground arith
check_threshold_at x false c e = ground arith

module _ {Bank : Type 0} (runtime : Runtime Bank) (laws : IsTransfer runtime) where
  -- What a trade over two pools has done, in order, before it returns.
  abbrev IsTwoHopRun :
      ℕ
      → Bank
      → PoolAccounts
      → PoolAccounts
      → Signer
      → TwoHopArguments
      → ℤ
      → ℕ
      → Calculated × Calculated
      → TradeResult Bank
      → TradeResult Bank
      → Type 0
  IsTwoHopRun fuel bank one two s x time t c first second =
      ((s.is_signer && pool_constraints runtime bank one && pool_constraints runtime bank two)
        ≡ true)
      × (lift (to_timestamp_u64 time) ≡ done t)
      × (calculate_two_hops fuel one two x t ≡ done c)
      × (check_threshold x.amount_specified_is_input x.other_amount_threshold
            (output_amount x.a_to_b_two c.1.0) (input_amount x.a_to_b_one c.0.0)
          ≡ done tt)
      × (settle_swap runtime bank one s c.0 x.a_to_b_one t ≡ done first)
      × (settle_swap runtime first.0 two s c.1 x.a_to_b_two t ≡ done second)

  first_hop-runs :
      (fuel : ℕ) (bank : Bank) (one two : PoolAccounts) (s : Signer) (x : TwoHopArguments)
      (time : ℤ) (t : ℕ) (c : Calculated × Calculated) (first second : TradeResult Bank)
      → IsTwoHopRun fuel bank one two s x time t c first second
      → swap_handler runtime fuel bank one s (first_hop x c) time ≡ done first
  first_hop-runs fuel bank one two s x time t c first second
        (allowed, clock, calculated, checked, settled_one, settled_two) =
      swap_handler-runs runtime fuel bank one s (first_hop x c) time c.0 t first (
        ground arith,
        clock,
        (calculate_two_hops_at fuel one two x x.amount_specified_is_input t c calculated).0,
        (check_threshold_at x x.amount_specified_is_input c checked).0,
        settled_one,
      )

  second_hop-runs :
      (fuel : ℕ) (bank : Bank) (one two : PoolAccounts) (s : Signer) (x : TwoHopArguments)
      (time : ℤ) (t : ℕ) (c : Calculated × Calculated) (first second : TradeResult Bank)
      → IsTwoHopRun fuel bank one two s x time t c first second
      → swap_handler runtime fuel first.0 two s (second_hop x c) time ≡ done second
  second_hop-runs fuel bank one two s x time t c first second
        (allowed, clock, calculated, checked, settled_one, settled_two) =
      let signed : s.is_signer ≡ true = ground arith in
      let of_two : pool_constraints runtime bank two ≡ true = ground arith in
      let same =
        settle_swap-SameMints runtime laws bank one s c.0 x.a_to_b_one t first settled_one in
      swap_handler-runs runtime fuel first.0 two s (second_hop x c) time c.1 t second (
        both_true _ _ signed
            (pool_constraints-SameMints runtime laws bank first.0 two same ∙ of_two),
        clock,
        (calculate_two_hops_at fuel one two x x.amount_specified_is_input t c calculated).1,
        (check_threshold_at x x.amount_specified_is_input c checked).1,
        settled_two,
      )

  two_hop_swap_handler-inverts :
      (fuel : ℕ) (bank : Bank) (one two : PoolAccounts) (s : Signer) (x : TwoHopArguments)
      (time : ℤ) (result : Bank × Traded × Traded)
      → two_hop_swap_handler runtime fuel bank one two s x time ≡ done result
      → (t : ℕ) × (c : Calculated × Calculated) × (first : TradeResult Bank) × (second : TradeResult
          Bank)
        × IsTwoHopRun fuel bank one two s x time t c first second
        × (lift (fail_if (one.pool.key == two.pool.key) duplicate_two_hop_pool) ≡ done tt)
        × (lift (
              fail_if
                (not (
                  output_mint x.a_to_b_one one.pool.content
                  == input_mint x.a_to_b_two two.pool.content))
                invalid_intermediary_mint)
            ≡ done tt)
        × ((second.0, first.1, second.1) ≡ result)
  unfolding two_hop_swap_handler
  two_hop_swap_handler-inverts fuel bank one two s x time result e =
      let (u0, allowed, e1) =
        bind_finishes
          (require
            (s.is_signer && pool_constraints runtime bank one && pool_constraints runtime bank two))
          _ e in
      let (t, clock, e2) = bind_finishes (lift (to_timestamp_u64 time)) _ e1 in
      let (u1, different, e3) =
        bind_finishes (lift (fail_if (one.pool.key == two.pool.key) duplicate_two_hop_pool)) _ e2 in
      let (u2, between, e4) =
        bind_finishes
          (lift (
            fail_if
              (not (
                output_mint x.a_to_b_one one.pool.content
                == input_mint x.a_to_b_two two.pool.content))
              invalid_intermediary_mint))
          _ e3 in
      let (c, calculated, e5) = bind_finishes (calculate_two_hops fuel one two x t) _ e4 in
      let (u3, checked, e6) =
        bind_finishes
          (check_threshold x.amount_specified_is_input x.other_amount_threshold
            (output_amount x.a_to_b_two c.1.0) (input_amount x.a_to_b_one c.0.0))
          _ e5 in
      let (first, settled_one, e7) =
        bind_finishes (settle_swap runtime bank one s c.0 x.a_to_b_one t) _ e6 in
      let (second, settled_two, e8) =
        bind_finishes (settle_swap runtime first.0 two s c.1 x.a_to_b_two t) _ e7 in
      (
        t,
        c,
        first,
        second,
        (require_holds _ allowed, clock, calculated, checked, settled_one, settled_two),
        different,
        between,
        done_injective e8,
      )

  -- Where transfers are as `IsTransfer` says, a trade over two pools that finishes is the swap in
  -- the first pool followed by the swap in the second, of different pools and with the same token
  -- in between: it leaves what the two handlers leave one after the other, with the arguments of
  -- `first_hop` and `second_hop`. The amount that passes from one to the other is the one that the
  -- hop before it, or after it for a specified output, has calculated.
  pub two_hop_swap_handler-eq-swap_handler :
      (fuel : ℕ) (bank : Bank) (one two : PoolAccounts) (authority : Signer) (x : TwoHopArguments)
      (time : ℤ) (result : Bank × Traded × Traded)
      → two_hop_swap_handler runtime fuel bank one two authority x time ≡ done result
      → (c : Calculated × Calculated) × (timestamp : ℕ) × (middle : Bank) × (lift
            (to_timestamp_u64 time)
          ≡ done timestamp)
        × AreCalculated fuel one two x timestamp c
        × (swap_handler runtime fuel bank one authority (first_hop x c) time
            ≡ done (middle, result.1))
        × (swap_handler runtime fuel middle two authority (second_hop x c) time
            ≡ done (result.0, result.2))
        × (one.pool.key ≢ two.pool.key)
        × (output_mint x.a_to_b_one one.pool.content ≡ input_mint x.a_to_b_two two.pool.content)
  two_hop_swap_handler-eq-swap_handler fuel bank one two s x time result e =
      let (t, c, first, second, run, different, between, same) =
        two_hop_swap_handler-inverts fuel bank one two s x time result e in
      (
        c,
        t,
        first.0,
        run.1,
        calculate_two_hops_at fuel one two x x.amount_specified_is_input t c run.2,
        first_hop-runs fuel bank one two s x time t c first second run
            ∙ ap (λ z. done (first.0, z.1)) same,
        second_hop-runs fuel bank one two s x time t c first second run
            ∙ ap (λ z. done (z.0, z.2)) same,
        ground arith,
        ground arith,
      )
