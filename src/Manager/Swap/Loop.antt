-- ===== src/Manager/Swap/Loop.antt =====
-- The loop of a swap: what it trades, when it stops, and its fuel.
use elysium_dex.Base.{
  ℕ, zero, suc, ◌+◌, ◌≤◌, ◌<◌, ◌≡◌, ◌∙◌, sym, ap, refl, ◌⊎◌, inl, inr, arith, Bool, true, false,
  not, ◌&&◌, Bool-cases, Option, none, some, Triple, subst, same, ltb, ◌==◌, if◌then◌else◌,
}
use elysium_dex.Base.Int.{ℤ}
use elysium_dex.Base.Words.{u64_mod}
use elysium_dex.Errors.{Result, ok, err, panic, ◌>>=◌, ◌>>◌, bind_returns}
use elysium_dex.Math.Tick.{tick_index_from_sqrt_price}
use elysium_dex.State.Pool.{ElysiumPool}
use elysium_dex.State.RewardInfo.{ElysiumPoolRewardInfo}
use elysium_dex.Manager.Pool.{next_pool_reward_infos}
use elysium_dex.Math.Swap.{SwapStepComputation, compute_swap}
use elysium_dex.Util.SwapTickSequence.{SwapTickSequence, get_next_initialized_tick_index}
use elysium_dex.Manager.Swap.{
  PostSwapUpdate, SwapState, SwapInput, trade_amounts, reach_tick, move_tick, settle,
  calculate_fees, get_next_sqrt_prices, swap_step, swap_loop, start_swap, finish_swap, finish_loop,
  swap_input, run_swap, check_swap, swap,
}
use elysium_dex.Manager.Swap.Amounts.{trade_amounts_lem}

-- The exit test of the loop.
abbrev pub goes_on : SwapInput → SwapState → Bool
goes_on i s = ltb 0 s.amount_remaining && not (i.sqrt_price_limit == s.curr_sqrt_price)

-- A state with as much to trade as another has.
abbrev SameAmount : SwapState → SwapState → Type 0
SameAmount s s' = s'.amount_remaining ≡ s.amount_remaining

amount_after : Result SwapState → ℕ
amount_after (ok s) = s.amount_remaining
amount_after (err e) = 0
amount_after panic = 0

reach_tick-SameAmount :
    (i : SwapInput) (s s' : SwapState) (array_index : ℕ) (tick_index : ℤ)
    → reach_tick i s array_index tick_index ≡ ok s'
    → SameAmount s s'
unfolding reach_tick
reach_tick-SameAmount i s s' array_index tick_index e = ground arith

move_tick-SameAmount :
    (i : SwapInput) (s s' : SwapState) (array_index : ℕ) (tick_index : ℤ)
    (tick_price next_price : ℕ)
    → move_tick i s array_index tick_index tick_price next_price ≡ ok s'
    → SameAmount s s'
unfolding move_tick amount_after
move_tick-SameAmount i s s' a t tick_price next_price =
    by_test (next_price == tick_price) (not (next_price == s.curr_sqrt_price))
  where
    by_test :
        (at_tick moved : Bool)
        → (if at_tick
            then reach_tick i s a t
            else if moved
            then (tick_index_from_sqrt_price next_price >>= λ n.
                ok (record s { curr_tick_index = n }))
            else ok s)
          ≡ ok s'
        → SameAmount s s'
    by_test true moved e = reach_tick-SameAmount i s s' a t e
    by_test false true e =
        let (n, _, returned) = bind_returns (tick_index_from_sqrt_price next_price) _ e in
        sym (ap amount_after returned)
    by_test false false e = sym (ap amount_after e)

trade_amounts-le :
    (is_input : Bool) (remaining total : ℕ) (c : SwapStepComputation) (after : ℕ × ℕ)
    → trade_amounts is_input remaining total c ≡ ok after
    → after.0 ≤ remaining
trade_amounts-le is_input remaining total c after e =
    ground (arith, trade_amounts_lem is_input remaining total c)

settle-le :
    (i : SwapInput) (s s' : SwapState) (array_index : ℕ) (tick_index : ℤ) (tick_price : ℕ)
    (c : SwapStepComputation)
    → settle i s array_index tick_index tick_price c ≡ ok s'
    → s'.amount_remaining ≤ s.amount_remaining
unfolding settle amount_after
settle-le i s s' a t tick_price c e =
    let (after, traded, e_1) =
      bind_returns
        (trade_amounts i.amount_specified_is_input s.amount_remaining s.amount_calculated c) _ e in
    let (fees, _, e_2) =
      bind_returns
        (calculate_fees c.fee_amount i.pool.protocol_fee_rate s.curr_liquidity s.curr_protocol_fee
          s.curr_fee_growth_global_input)
        _ e_1 in
    let (moved, moves, e_3) = bind_returns (move_tick i _ a t tick_price c.next_price) _ e_2 in
    omega (
      arith,
      trade_amounts-le i.amount_specified_is_input s.amount_remaining s.amount_calculated c after
          traded,
      move_tick-SameAmount i _ moved a t tick_price c.next_price moves,
      ap amount_after e_3,
    )

swap_step-le :
    (i : SwapInput) (s s' : SwapState)
    → swap_step i s ≡ ok s'
    → s'.amount_remaining ≤ s.amount_remaining
unfolding swap_step
swap_step-le i s s' e =
    let (next, _, e_1) =
      bind_returns
        (get_next_initialized_tick_index s.arrays s.curr_tick_index i.pool.tick_spacing i.a_to_b
          s.curr_array_index)
        _ e in
    let (prices, _, e_2) =
      bind_returns (get_next_sqrt_prices next.1 i.sqrt_price_limit i.a_to_b) _ e_1 in
    let (c, _, e_3) =
      bind_returns
        (compute_swap s.amount_remaining i.pool.fee_rate s.curr_liquidity s.curr_sqrt_price prices.1
          i.amount_specified_is_input i.a_to_b)
        _ e_2 in
    settle-le i s s' next.0 next.1 prices.0 c e_3

-- The cases of one round, as equations.
round_stops :
    (fuel : ℕ) (i : SwapInput) (s : SwapState)
    → goes_on i s ≡ false
    → swap_loop (suc fuel) i s ≡ some (ok s)
unfolding swap_loop
round_stops fuel i s h = rw (swap_loop, h) refl

round_steps :
    (fuel : ℕ) (i : SwapInput) (s s' : SwapState)
    → goes_on i s ≡ true
    → swap_step i s ≡ ok s'
    → swap_loop (suc fuel) i s ≡ swap_loop fuel i s'
unfolding swap_loop
round_steps fuel i s s' h e = rw (swap_loop, h, e) refl

-- A step that fails ends the loop.
failed : Result SwapState → Result SwapState
failed (ok s) = panic
failed (err e) = err e
failed panic = panic

round_fails :
    (fuel : ℕ) (i : SwapInput) (s : SwapState)
    → goes_on i s ≡ true
    → ((s' : SwapState) × (swap_step i s ≡ ok s'))
      ⊎ (swap_loop (suc fuel) i s ≡ some (failed (swap_step i s)))
unfolding failed swap_loop
round_fails fuel i s h = by_step (swap_step i s) refl
  where
    by_step :
        (r : Result SwapState)
        → swap_step i s ≡ r
        → ((s' : SwapState) × (swap_step i s ≡ ok s'))
          ⊎ (swap_loop (suc fuel) i s ≡ some (failed (swap_step i s)))
    by_step (ok s') e = inl (s', e)
    by_step (err code) e = inr (rw (swap_loop, h, e) refl)
    by_step panic e = inr (rw (swap_loop, h, e) refl)

-- Where the loop ends within its fuel, with a state, an error or a panic, it ends so with more
-- fuel.
pub swap_loop_more :
    (fuel extra : ℕ) (i : SwapInput) (s : SwapState) (r : Result SwapState)
    → swap_loop fuel i s ≡ some r
    → swap_loop (fuel + extra) i s ≡ some r
unfolding swap_loop
swap_loop_more zero extra i s r e = absurd (none_some e)
  where
    none_some : none ≡ some r → ⊥
    none_some q = grind arith
swap_loop_more (suc fuel) extra i s r e =
    ap (λ n. swap_loop n i s) later ∙ elim (Bool-cases (goes_on i s)) [
      | inr stops ↦ round_stops (fuel + extra) i s stops ∙ sym (round_stops fuel i s stops) ∙ e
      | inl on ↦ elim (round_fails fuel i s on) [
        | inl (t, step) ↦
            round_steps (fuel + extra) i s t on step
            ∙ swap_loop_more fuel extra i t r (sym (round_steps fuel i s t on step) ∙ e)
        | inr fails ↦ elim (round_fails (fuel + extra) i s on) [
          | inr fails_later ↦ fails_later ∙ sym fails ∙ e
          | inl (t, step) ↦
              round_steps (fuel + extra) i s t on step
              ∙ swap_loop_more fuel extra i t r (sym (round_steps fuel i s t on step) ∙ e)
        ]
      ]
    ]
  where
    later : suc fuel + extra ≡ suc (fuel + extra)
    later = omega arith

returned : SwapState → Option (Result SwapState) → SwapState
returned default none = default
returned default (some (ok s)) = s
returned default (some (err e)) = default
returned default (some panic) = default

-- Where the loop returns a state, no more is left to trade than before, and the exit test holds.
pub swap_loop-Stops :
    (fuel : ℕ) (i : SwapInput) (s s' : SwapState)
    → swap_loop fuel i s ≡ some (ok s')
    → (s'.amount_remaining ≤ s.amount_remaining) × (goes_on i s' ≡ false)
unfolding swap_loop failed returned
swap_loop-Stops zero i s s' e = grind arith
swap_loop-Stops (suc fuel) i s s' e = elim (Bool-cases (goes_on i s)) [
  | inr stops ↦ at_end (some_ok (sym (round_stops fuel i s stops) ∙ e)) stops
  | inl on ↦ elim (round_fails fuel i s on) [
    | inl (t, step) ↦
        let (le, stop) = swap_loop-Stops fuel i t s' (sym (round_steps fuel i s t on step) ∙ e) in
        (omega (arith, swap_step-le i s t step), stop)
    | inr fails ↦ absurd (not_failed (swap_step i s) (sym fails ∙ e))
  ]
]
  where
    some_ok : some (ok s) ≡ some (ok s') → s ≡ s'
    some_ok q = ap (returned s) q

    at_end :
        s ≡ s'
        → goes_on i s ≡ false
        → (s'.amount_remaining ≤ s.amount_remaining) × (goes_on i s' ≡ false)
    at_end q h = (omega (arith, ap (λ t. t.amount_remaining) q), rw q at h)

    not_failed : (r : Result SwapState) → some (failed r) ≡ some (ok s') → ⊥
    not_failed (ok t) q = grind arith
    not_failed (err t) q = grind arith
    not_failed panic q = grind arith

abbrev pub Fills : ℕ → ℕ → Bool → Bool → PostSwapUpdate → Type 0
Fills amount limit is_input a_to_b u =
    let traded : ℕ = if same a_to_b is_input then u.amount_a else u.amount_b in
    (traded ≤ amount) × ((traded ≡ amount) ⊎ (u.next_sqrt_price ≡ limit))

finish_swap-Fills :
    (i : SwapInput) (amount : ℕ) (s : SwapState)
    → amount < u64_mod
    → s.amount_remaining ≤ amount
    → goes_on i s ≡ false
    → Fills amount i.sqrt_price_limit i.amount_specified_is_input i.a_to_b (finish_swap i amount s)
unfolding finish_swap
finish_swap-Fills i amount s h le stop = ground arith

result_of : PostSwapUpdate → Option (Result (PostSwapUpdate × SwapTickSequence)) → PostSwapUpdate
result_of default none = default
result_of default (some (ok (u, arrays))) = u
result_of default (some (err e)) = default
result_of default (some panic) = default

finish_loop-Fills :
    (i : SwapInput) (amount fuel : ℕ) (s : SwapState) (o : Option (Result SwapState))
    (u : PostSwapUpdate) (arrays : SwapTickSequence)
    → amount < u64_mod
    → s.amount_remaining ≡ amount
    → swap_loop fuel i s ≡ o
    → finish_loop i amount o ≡ some (ok (u, arrays))
    → Fills amount i.sqrt_price_limit i.amount_specified_is_input i.a_to_b u
unfolding finish_loop result_of
finish_loop-Fills i amount fuel s none u arrays h start loop e = grind arith
finish_loop-Fills i amount fuel s (some (err code)) u arrays h start loop e = grind arith
finish_loop-Fills i amount fuel s (some panic) u arrays h start loop e = grind arith
finish_loop-Fills i amount fuel s (some (ok s')) u arrays h start loop e =
    let (le, stop) = swap_loop-Stops fuel i s s' loop in
    let done = finish_swap-Fills i amount s' h (omega arith) stop in
    subst (Fills amount i.sqrt_price_limit i.amount_specified_is_input i.a_to_b)
      (ap (result_of (finish_swap i amount s')) e) done

-- However long its loop runs, a swap of a `u64` amount that succeeds trades no more than that
-- amount of the specified token, and less only if it ends at the price limit.
pub swap-Fills :
    (fuel : ℕ) (p : ElysiumPool) (arrays arrays' : SwapTickSequence) (amount limit : ℕ)
    (is_input a_to_b : Bool) (timestamp : ℕ) (u : PostSwapUpdate)
    → amount < u64_mod
    → swap fuel p arrays amount limit is_input a_to_b timestamp ≡ some (ok (u, arrays'))
    → Fills amount limit is_input a_to_b u
unfolding swap run_swap start_swap
swap-Fills fuel p arrays arrays' amount limit is_input a_to_b timestamp u h =
    by_checks (check_swap p amount limit a_to_b >> next_pool_reward_infos p timestamp)
  where
    by_checks :
        (r : Result (Triple ElysiumPoolRewardInfo))
        → run_swap fuel p arrays amount limit is_input a_to_b r ≡ some (ok (u, arrays'))
        → Fills amount limit is_input a_to_b u
    by_checks (err code) e = grind arith
    by_checks panic e = grind arith
    by_checks (ok rewards) e =
        finish_loop-Fills (swap_input p limit is_input a_to_b rewards) amount fuel
          (start_swap p arrays amount a_to_b) _ u arrays' h refl refl e
