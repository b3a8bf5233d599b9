-- ===== src/Math/Swap/Inputs.antt =====
-- One step of a swap with an input of B: how far it goes, and what it takes.
use elysium_dex.Base.{
  ℕ, ◌+◌, ◌-◌, ◌*◌, ◌≤◌, ◌<◌, ◌≡◌, ◌⊎◌, inl, inr, ap, sym, ◌∙◌, arith, Bool, true, false, not,
  Bool-cases, leb, ◌==◌, if◌then◌else◌,
}
use elysium_dex.Base.Words.{u64_mod, u128_mod, sub_u64}
use elysium_dex.Errors.{ok, bind_returns}
use elysium_dex.Math.Token.{
  fee_rate_mul_value, get_amount_delta_b, get_next_sqrt_price,
  get_next_sqrt_price_from_b_round_down,
}
use elysium_dex.Math.Token.Rounding.{
  distance, get_amount_delta_b-Rounds, next_price-input, next_price-get_amount_delta_b,
}
use native.Mathlib.Nat.{mul_comm, mul-le-mul_right, mul-le-mul_left}
use elysium_dex.Math.Swap.{
  SwapStepComputation, get_amount_fixed_delta, get_amount_unfixed_delta, amount_less_fee, step_fee,
  compute_swap,
}
use elysium_dex.Math.Swap.Parts.{
  amount_less_fee_lem, step_fee_lem, ok_injective, le_or_lt, reaches, stops, eq_of_test, fixed_at,
  step_injective,
}

-- The next price of a step with an input of B: `calc` is the input without its fee.
abbrev Moves : (current target liquidity calc full next : ℕ) → Type 0
Moves current target liquidity calc full next =
    (if leb full calc then ok target else get_next_sqrt_price current liquidity calc true false)
    ≡ ok next

-- An input that falls short of the target does not pass it.
before_target :
    (current target liquidity calc full next : ℕ)
    → current ≤ target
    → target < u128_mod
    → calc < u64_mod
    → calc < full
    → get_amount_delta_b current target liquidity true ≡ ok full
    → get_next_sqrt_price_from_b_round_down current liquidity calc true ≡ ok next
    → next ≤ target
before_target current target liquidity calc full next le ht hc short cost moved =
    let (up, fits, positive, (low, high)) = next_price-input current liquidity calc next hc moved in
    let (covers, least) =
      get_amount_delta_b-Rounds current target liquidity true full (omega arith) ht cost in
    let apart : distance current target ≡ target - current = ground arith in
    let same : liquidity * distance current target ≡ (target - current) * liquidity =
      ap (λ d. liquidity * d) apart ∙ mul_comm liquidity (target - current) in
    elim (le_or_lt next target) [
      | inl fine ↦ fine
      | inr past ↦
          let beyond : (target - current) * liquidity ≤ (next - current) * liquidity =
            mul-le-mul_right liquidity (omega arith) in
          absurd (omega arith)
    ]

price_after_input :
    (current target liquidity calc full next fixed : ℕ)
    → current ≤ target
    → target < u128_mod
    → calc < u64_mod
    → get_amount_delta_b current target liquidity true ≡ ok full
    → Moves current target liquidity calc full next
    → get_amount_delta_b current next liquidity true ≡ ok fixed
    → (current ≤ next) × (next ≤ target) × (fixed ≤ calc)
unfolding get_next_sqrt_price
price_after_input current target liquidity calc full next fixed le ht hc cost moves cost_next =
    elim (Bool-cases (leb full calc)) [
      | inl enough ↦
          let reached : target ≡ next = reaches (leb full calc) _ enough moves in
          let same = ok_injective (
            sym cost ∙ ap (λ p. get_amount_delta_b current p liquidity true) reached ∙ cost_next) in
          ground arith
      | inr short ↦
          let moved = stops (leb full calc) target _ short moves in
          let (up, within, most) =
            next_price-get_amount_delta_b current liquidity calc next fixed hc (omega arith) moved
              cost_next in
          (
            up,
            before_target current target liquidity calc full next le ht hc (ground arith) cost
                moved,
            within,
          )
    ]

-- A step with an input of B, as its parts.
abbrev IsInputStep :
    (remaining rate liquidity current target full calc next fixed : ℕ)
    → SwapStepComputation
    → Type 0
IsInputStep remaining rate liquidity current target full calc next fixed s =
    (get_amount_delta_b current target liquidity true ≡ ok full)
    × (amount_less_fee remaining rate true ≡ ok calc)
    × Moves current target liquidity calc full next
    × (get_amount_delta_b current next liquidity true ≡ ok fixed)
    × (step_fee remaining fixed rate (not (next == target)) ≡ ok s.fee_amount)
    × (fixed ≡ s.amount_in)
    × (next ≡ s.next_price)

compute_swap-IsInputStep :
    (remaining rate liquidity current target : ℕ) (s : SwapStepComputation)
    → compute_swap remaining rate liquidity current target true false ≡ ok s
    → (full : ℕ) × (calc : ℕ) × (next : ℕ) × (fixed : ℕ) × IsInputStep remaining rate liquidity
        current target full calc next fixed s
unfolding compute_swap get_amount_fixed_delta
compute_swap-IsInputStep remaining rate liquidity current target s e =
    let (full, cost, e1) = bind_returns (get_amount_delta_b current target liquidity true) _ e in
    let (calc, taken, e2) = bind_returns (amount_less_fee remaining rate true) _ e1 in
    let (next, moves, e3) =
      bind_returns
        (if leb full calc then ok target else get_next_sqrt_price current liquidity calc true false)
        _ e2 in
    let (unfixed, other, e4) =
      bind_returns (get_amount_unfixed_delta current next liquidity true false) _ e3 in
    let (fixed, at, e5) =
      bind_returns
        (if next == target then ok full else get_amount_delta_b current next liquidity true) _ e4 in
    let (fee, charged, e6) =
      bind_returns (step_fee remaining fixed rate (not (next == target))) _ e5 in
    let same = step_injective e6 in
    (
      full,
      calc,
      next,
      fixed,
      (
        cost,
        taken,
        moves,
        fixed_at (next == target) current target liquidity full next fixed true
            (eq_of_test next target) cost at,
        charged ∙ ap (λ z. ok z.fee_amount) same,
        ap (λ z. z.amount_in) same,
        ap (λ z. z.next_price) same,
      ),
    )

pub input_charges :
    (remaining rate fixed fee calc : ℕ) (ends : Bool)
    → remaining < u64_mod
    → rate < fee_rate_mul_value
    → fixed ≤ calc
    → calc * fee_rate_mul_value ≤ remaining * (fee_rate_mul_value - rate)
    → step_fee remaining fixed rate ends ≡ ok fee
    → (fixed + fee ≤ remaining) × (ends ≡ true → fixed + fee ≡ remaining)
unfolding step_fee
input_charges remaining rate fixed fee calc true hr h le within e =
    let rest : remaining * (fee_rate_mul_value - rate) ≤ remaining * fee_rate_mul_value =
      mul-le-mul_left remaining (omega arith) in
    let charged : sub_u64 remaining fixed ≡ fee = ok_injective e in (omega arith, λ u. omega arith)
input_charges remaining rate fixed fee calc false hr h le within e =
    (step_fee_lem remaining fixed rate fee h (omega arith) e, λ u. ground arith)

-- A step of a swap with an input of B, at a fee rate below one, from a price to one that is not
-- below it: the price goes up, to the target at most. The input and its fee are no more than what
-- remains to be traded, and exactly that unless the target is reached.
pub compute_swap-Fills_input :
    (remaining rate liquidity current target : ℕ) (s : SwapStepComputation)
    → remaining < u64_mod
    → rate < fee_rate_mul_value
    → current ≤ target
    → target < u128_mod
    → compute_swap remaining rate liquidity current target true false ≡ ok s
    → (current ≤ s.next_price)
      × (s.next_price ≤ target)
      × (s.amount_in + s.fee_amount ≤ remaining)
      × ((s.next_price ≡ target) ⊎ (s.amount_in + s.fee_amount ≡ remaining))
compute_swap-Fills_input remaining rate liquidity current target s hr h le ht e =
    let (full, calc, next, fixed, (cost, taken, moves, at, charged, same_in, same_price)) =
      compute_swap-IsInputStep remaining rate liquidity current target s e in
    let (within, hc) = amount_less_fee_lem remaining rate calc h taken in
    let (up, limit, most) =
      price_after_input current target liquidity calc full next fixed le ht hc cost moves at in
    let (fits, exact) =
      input_charges remaining rate fixed s.fee_amount calc (not (next == target)) hr h most within
        charged in
    (omega arith, omega arith, omega arith, ground arith)
