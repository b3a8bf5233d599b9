-- ===== src/Math/Swap/InputsA.antt =====
-- One step of a swap with an input of A: how far it goes, and what it takes.
use elysium_dex.Base.{
  ℕ, zero, suc, ◌+◌, ◌-◌, ◌*◌, ◌≤◌, ◌<◌, ◌≡◌, ◌⊎◌, inl, inr, refl, ap, sym, ◌∙◌, arith, Bool, true,
  false, not, Bool-cases, leb, leb→le, ◌==◌, if◌then◌else◌,
}
use elysium_dex.Base.Words.{u64_mod, u128_mod}
use elysium_dex.Errors.{ok, bind_returns}
use elysium_dex.Math.Token.{
  fee_rate_mul_value, get_amount_delta_a, get_next_sqrt_price, get_next_sqrt_price_from_a_round_up,
}
use elysium_dex.Math.Token.Rounding.{distance}
use elysium_dex.Math.Token.TokenA.{get_amount_delta_a-Rounds, next_price_a-input, above_test}
use elysium_dex.Math.Token.CurveA.{next_price-get_amount_delta_a, spread_cost, move_factor, part_of}
use native.Mathlib.Nat.{suc-mul, mul-zero, mul_comm, mul-le-mul_right, lt_of_mul-lt-mul_right}
use elysium_dex.Math.Swap.{
  SwapStepComputation, get_amount_fixed_delta, get_amount_unfixed_delta, amount_less_fee, step_fee,
  compute_swap,
}
use elysium_dex.Math.Swap.Parts.{
  amount_less_fee_lem, ok_injective, reaches, stops, eq_of_test, step_injective,
}
use elysium_dex.Math.Swap.Inputs.{input_charges}

-- The next price of a step with an input of A: `calc` is the input without its fee.
abbrev Moves : (current target liquidity calc full next : ℕ) → Type 0
Moves current target liquidity calc full next =
    (if leb full calc then ok target else get_next_sqrt_price current liquidity calc true true)
    ≡ ok next

distance_down : (p q : ℕ) → q ≤ p → distance p q ≡ p - q
distance_down p q h = ground arith

-- An input that falls short of the target does not pass it.
before_target :
    (current target liquidity calc full next : ℕ)
    → target ≤ current
    → current < u128_mod
    → liquidity < u128_mod
    → calc < u64_mod
    → 0 < calc
    → calc < full
    → get_amount_delta_a current target liquidity true ≡ ok full
    → get_next_sqrt_price_from_a_round_up current liquidity calc true ≡ ok next
    → target ≤ next
before_target p t liquidity calc full next le hp hl hc positive short cost moved =
    let x : ℕ = liquidity * u64_mod in
    let ((covers, least), low, high) =
      next_price_a-input p liquidity calc next positive hc hp hl moved in
    let (product, (full_covers, full_least), small) =
      get_amount_delta_a-Rounds p t liquidity true full hp (omega arith) hl cost in
    let scaled : liquidity * distance p t * u64_mod ≡ x * (p - t) =
      ap (λ d. liquidity * d * u64_mod) (distance_down p t le) ∙ move_factor liquidity (p - t) in
    let paid : suc calc * (p * t) ≤ full * (p * t) = mul-le-mul_right (p * t) short in
    let below : t * (x + p * calc) < next * (x + p * calc) = omega (
      arith,
      covers,
      full_least,
      scaled,
      paid,
      suc-mul calc (p * t),
      mul_comm (p * t) calc,
      spread_cost x p t calc,
      part_of x p t le,
      move_factor liquidity p,
    ) in
    omega (arith, lt_of_mul-lt-mul_right (x + p * calc) below)

unmoved :
    (p liquidity : ℕ) (next : ℕ)
    → get_next_sqrt_price_from_a_round_up p liquidity 0 true ≡ ok next
    → p ≡ next
unfolding get_next_sqrt_price_from_a_round_up
unmoved p liquidity next e = ok_injective e

costs_nothing :
    (p liquidity fixed : ℕ)
    → p < u128_mod
    → liquidity < u128_mod
    → get_amount_delta_a p p liquidity true ≡ ok fixed
    → fixed ≡ 0
costs_nothing p liquidity fixed hp hl e =
    let (product, (covers, least), small) =
      get_amount_delta_a-Rounds p p liquidity true fixed hp hp hl e in
    let apart : distance p p ≡ 0 = distance_down p p (omega arith) ∙ omega arith in
    let none : liquidity * distance p p * u64_mod ≡ 0 =
      ap (λ d. liquidity * d * u64_mod) apart ∙ omega (arith, mul-zero liquidity) in
    let less : fixed * (p * p) < 1 * (p * p) = omega (arith, least, none) in
    omega (arith, lt_of_mul-lt-mul_right (p * p) less)

short_of_target :
    (current target liquidity calc full next fixed : ℕ)
    → target ≤ current
    → current < u128_mod
    → liquidity < u128_mod
    → calc < u64_mod
    → calc < full
    → get_amount_delta_a current target liquidity true ≡ ok full
    → get_next_sqrt_price_from_a_round_up current liquidity calc true ≡ ok next
    → get_amount_delta_a current next liquidity true ≡ ok fixed
    → (next ≤ current) × (target ≤ next) × (fixed ≤ calc)
short_of_target p t liquidity zero full next fixed le hp hl hc short cost moved at =
    let same = unmoved p liquidity next moved in
    let nothing =
      costs_nothing p liquidity fixed hp hl
        (ap (λ q. get_amount_delta_a p q liquidity true) same ∙ at) in
    (omega arith, omega arith, omega arith)
short_of_target p t liquidity (suc n) full next fixed le hp hl hc short cost moved at =
    let (down, within, most) =
      next_price-get_amount_delta_a p liquidity (suc n) next fixed (omega arith) hc hp hl moved
        at in
    (
      down,
      before_target p t liquidity (suc n) full next le hp hl hc (omega arith) short cost moved,
      within,
    )

price_after_input :
    (current target liquidity calc full next fixed : ℕ)
    → target ≤ current
    → current < u128_mod
    → liquidity < u128_mod
    → calc < u64_mod
    → get_amount_delta_a current target liquidity true ≡ ok full
    → Moves current target liquidity calc full next
    → get_amount_delta_a current next liquidity true ≡ ok fixed
    → (next ≤ current) × (target ≤ next) × (fixed ≤ calc)
unfolding get_next_sqrt_price
price_after_input current target liquidity calc full next fixed le hp hl hc cost moves at =
    elim (Bool-cases (leb full calc)) [
      | inl enough ↦
          let reached : target ≡ next = reaches (leb full calc) _ enough moves in
          let same =
            ok_injective
              (sym cost ∙ ap (λ p. get_amount_delta_a current p liquidity true) reached ∙ at) in
          (omega arith, omega arith, omega (arith, leb→le full calc enough, same))
      | inr short ↦
          short_of_target current target liquidity calc full next fixed le hp hl hc
            (above_test full calc short) cost (stops (leb full calc) target _ short moves) at
    ]

-- The amount of the step is that of its own prices, also where it is taken over from the target.
fixed_at_target :
    (reached : Bool) (current target liquidity full next fixed : ℕ)
    → (reached ≡ true → next ≡ target)
    → get_amount_delta_a current target liquidity true ≡ ok full
    → (if reached then ok full else get_amount_delta_a current next liquidity true) ≡ ok fixed
    → get_amount_delta_a current next liquidity true ≡ ok fixed
fixed_at_target true current target liquidity full next fixed same cost e =
    ap (λ p. get_amount_delta_a current p liquidity true) (same refl) ∙ cost ∙ e
fixed_at_target false current target liquidity full next fixed same cost e = e

-- A step of a swap with an input of A, at a fee rate below one, from a price to one that is not above
-- it: the price goes down, to the target at most. The input and its fee are no more than what
-- remains to be traded, and exactly that unless the target is reached.
pub compute_swap-Fills_input_a :
    (remaining rate liquidity current target : ℕ) (s : SwapStepComputation)
    → remaining < u64_mod
    → rate < fee_rate_mul_value
    → liquidity < u128_mod
    → target ≤ current
    → current < u128_mod
    → compute_swap remaining rate liquidity current target true true ≡ ok s
    → (s.next_price ≤ current)
      × (target ≤ s.next_price)
      × (s.amount_in + s.fee_amount ≤ remaining)
      × ((s.next_price ≡ target) ⊎ (s.amount_in + s.fee_amount ≡ remaining))
unfolding compute_swap get_amount_fixed_delta
compute_swap-Fills_input_a remaining rate liquidity current target s hr h hl le hp e =
    let (full, cost, e1) = bind_returns (get_amount_delta_a current target liquidity true) _ e in
    let (calc, taken, e2) = bind_returns (amount_less_fee remaining rate true) _ e1 in
    let (next, moves, e3) =
      bind_returns
        (if leb full calc then ok target else get_next_sqrt_price current liquidity calc true true)
        _ e2 in
    let (unfixed, other, e4) =
      bind_returns (get_amount_unfixed_delta current next liquidity true true) _ e3 in
    let (fixed, amount, e5) =
      bind_returns
        (if next == target then ok full else get_amount_delta_a current next liquidity true) _ e4 in
    let (fee, charged, e6) =
      bind_returns (step_fee remaining fixed rate (not (next == target))) _ e5 in
    let same = step_injective e6 in
    let at =
      fixed_at_target (next == target) current target liquidity full next fixed
        (eq_of_test next target) cost amount in
    let (within, hc) = amount_less_fee_lem remaining rate calc h taken in
    let (down, limit, most) =
      price_after_input current target liquidity calc full next fixed le hp hl hc cost moves at in
    let same_in : fixed ≡ s.amount_in = ap (λ z. z.amount_in) same in
    let same_price : next ≡ s.next_price = ap (λ z. z.next_price) same in
    let same_fee : fee ≡ s.fee_amount = ap (λ z. z.fee_amount) same in
    let (fits, exact) =
      input_charges remaining rate fixed fee calc (not (next == target)) hr h most within charged in
    (omega arith, omega arith, omega arith, ends next target s same_price exact same_in same_fee)
  where
    ends :
        (next target : ℕ) (s : SwapStepComputation)
        → next ≡ s.next_price
        → {fixed fee remaining : ℕ} → (not (next == target) ≡ true → fixed + fee ≡ remaining)
        → fixed ≡ s.amount_in
        → fee ≡ s.fee_amount
        → (s.next_price ≡ target) ⊎ (s.amount_in + s.fee_amount ≡ remaining)
    ends next target s p exact q r = elim (Bool-cases (next == target)) [
      | inl reached ↦ inl (sym p ∙ eq_of_test next target reached)
      | inr stopped ↦ inr (omega (arith, exact (ap not stopped), q, r))
    ]
