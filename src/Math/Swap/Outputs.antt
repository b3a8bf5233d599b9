-- ===== src/Math/Swap/Outputs.antt =====
-- One step of a swap with an output of B: how far it goes, and what it gives.
use elysium_dex.Base.{
  ℕ, ◌+◌, ◌-◌, ◌*◌, ◌≤◌, ◌<◌, ◌≡◌, ◌⊎◌, inl, inr, ap, sym, ◌∙◌, arith, true, false, Bool-cases, ltb,
  leb, ◌==◌, if◌then◌else◌,
}
use elysium_dex.Base.Words.{u64_mod, u128_mod}
use elysium_dex.Errors.{ok, bind_returns}
use elysium_dex.Math.Token.{
  get_amount_delta_b, get_next_sqrt_price, get_next_sqrt_price_from_b_round_down,
}
use elysium_dex.Math.Token.Rounding.{
  distance, get_amount_delta_b-Rounds, next_price-output, next_price_down-get_amount_delta_b,
}
use native.Mathlib.Nat.{mul_comm, add-mul, one-mul, mul-le-mul_right}
use elysium_dex.Math.Swap.{
  SwapStepComputation, get_amount_fixed_delta, get_amount_unfixed_delta, amount_less_fee, step_fee,
  compute_swap,
}
use elysium_dex.Math.Swap.Parts.{le_or_lt, reaches, stops, eq_of_test, fixed_at, step_injective}

-- The next price of a step with an output of B.
abbrev MovesDown : (current target liquidity remaining full next : ℕ) → Type 0
MovesDown current target liquidity remaining full next =
    (if leb full remaining
      then ok target
      else get_next_sqrt_price current liquidity remaining false true)
    ≡ ok next

-- An output that falls short of the target does not pass it.
before_target :
    (current target liquidity remaining full next : ℕ)
    → target ≤ current
    → current < u128_mod
    → remaining < u64_mod
    → remaining < full
    → get_amount_delta_b current target liquidity false ≡ ok full
    → get_next_sqrt_price_from_b_round_down current liquidity remaining false ≡ ok next
    → target ≤ next
before_target current target liquidity remaining full next le hc hr short cost moved =
    let (down, positive, (low, high)) =
      next_price-output current liquidity remaining next hr moved in
    let (fit, most) =
      get_amount_delta_b-Rounds current target liquidity false full hc (omega arith) cost in
    let apart : distance current target ≡ current - target = ground arith in
    let same : liquidity * distance current target ≡ (current - target) * liquidity =
      ap (λ d. liquidity * d) apart ∙ mul_comm liquidity (current - target) in
    elim (le_or_lt target next) [
      | inl fine ↦ fine
      | inr past ↦
          let beyond : (current - target + 1) * liquidity ≤ (current - next) * liquidity =
            mul-le-mul_right liquidity (omega arith) in
          absurd (omega (arith, add-mul (current - target) 1 liquidity, one-mul liquidity))
    ]

price_after_output :
    (current target liquidity remaining full next fixed : ℕ)
    → target ≤ current
    → current < u128_mod
    → remaining < u64_mod
    → get_amount_delta_b current target liquidity false ≡ ok full
    → MovesDown current target liquidity remaining full next
    → get_amount_delta_b current next liquidity false ≡ ok fixed
    → (next ≤ current) × (target ≤ next) × ((next ≡ target) ⊎ (remaining ≤ fixed))
unfolding get_next_sqrt_price
price_after_output current target liquidity remaining full next fixed le hc hr cost moves
      cost_next =
    elim (Bool-cases (leb full remaining)) [
      | inl enough ↦
          let reached : target ≡ next = reaches (leb full remaining) _ enough moves in
          (omega arith, omega arith, inl (sym reached))
      | inr short ↦
          let moved = stops (leb full remaining) target _ short moves in
          let (down, paid) =
            next_price_down-get_amount_delta_b current liquidity remaining next fixed hr hc moved
              cost_next in
          (
            down,
            before_target current target liquidity remaining full next le hc hr (ground arith) cost
                moved,
            inr paid,
          )
    ]

-- What the step gives: no more than remains.
abbrev given : (remaining fixed : ℕ) → ℕ
given remaining fixed = if ltb remaining fixed then remaining else fixed

-- A step with an output of B, as its parts.
abbrev IsOutputStep :
    (remaining liquidity current target full next fixed : ℕ) → SwapStepComputation → Type 0
IsOutputStep remaining liquidity current target full next fixed s =
    (get_amount_delta_b current target liquidity false ≡ ok full)
    × MovesDown current target liquidity remaining full next
    × (get_amount_delta_b current next liquidity false ≡ ok fixed)
    × (given remaining fixed ≡ s.amount_out)
    × (next ≡ s.next_price)

compute_swap-IsOutputStep :
    (remaining rate liquidity current target : ℕ) (s : SwapStepComputation)
    → compute_swap remaining rate liquidity current target false true ≡ ok s
    → (full : ℕ) × (next : ℕ) × (fixed : ℕ) × IsOutputStep remaining liquidity current target full
        next fixed s
unfolding compute_swap get_amount_fixed_delta amount_less_fee
compute_swap-IsOutputStep remaining rate liquidity current target s e =
    let (full, cost, e1) = bind_returns (get_amount_delta_b current target liquidity false) _ e in
    let (next, moves, e3) =
      bind_returns
        (if leb full remaining
          then ok target
          else get_next_sqrt_price current liquidity remaining false true)
        _ e1 in
    let (unfixed, other, e4) =
      bind_returns (get_amount_unfixed_delta current next liquidity false true) _ e3 in
    let (fixed, at, e5) =
      bind_returns
        (if next == target then ok full else get_amount_delta_b current next liquidity false) _
        e4 in
    let (fee, charged, e6) = bind_returns (step_fee remaining unfixed rate false) _ e5 in
    let same = step_injective e6 in
    (
      full,
      next,
      fixed,
      (
        cost,
        moves,
        fixed_at (next == target) current target liquidity full next fixed false
            (eq_of_test next target) cost at,
        ap (λ z. z.amount_out) same,
        ap (λ z. z.next_price) same,
      ),
    )

-- A step of a swap with an output of B, from a price to one that is not above it: the price goes
-- down, to the target at most. What comes out is no more than what remains to be traded, and
-- exactly that unless the target is reached.
pub compute_swap-Fills_output :
    (remaining rate liquidity current target : ℕ) (s : SwapStepComputation)
    → remaining < u64_mod
    → target ≤ current
    → current < u128_mod
    → compute_swap remaining rate liquidity current target false true ≡ ok s
    → (s.next_price ≤ current)
      × (target ≤ s.next_price)
      × (s.amount_out ≤ remaining)
      × ((s.next_price ≡ target) ⊎ (s.amount_out ≡ remaining))
compute_swap-Fills_output remaining rate liquidity current target s hr le hc e =
    let (full, next, fixed, (cost, moves, at, same_out, same_price)) =
      compute_swap-IsOutputStep remaining rate liquidity current target s e in
    let (down, limit, fills) =
      price_after_output current target liquidity remaining full next fixed le hc hr cost moves
        at in
    (omega arith, omega arith, ground arith, ground arith)
