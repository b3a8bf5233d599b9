-- ===== src/Math/Swap/Parts.antt =====
-- The parts of a step: its fee, and the tests on the way.
use elysium_dex.Base.{
  ℕ, ◌+◌, ◌-◌, ◌*◌, ◌≤◌, ◌<◌, ◌≡◌, ◌⊎◌, refl, ap, subst, sym, ◌∙◌, arith, Bool, true, false, ltb,
  ◌==◌, if◌then◌else◌,
}
use elysium_dex.Base.Words.{u64_mod, u128_mod, sub_u128}
use elysium_dex.Errors.{Result, ok, err, bind_returns, mul_div_overflow, divide_by_zero}
use elysium_dex.Math.Bit.{checked_mul_div, checked_mul_div_round_up, checked_mul_div_round_up_if}
use elysium_dex.Math.Bit.Rounding.{Rounds, quotient-Rounds, checked_mul_div_lem}
use elysium_dex.Math.Token.{fee_rate_mul_value, get_amount_delta_b}
use native.Mathlib.Nat.{mul-add, add-mul, one-mul, lt_of_mul-lt-mul_right}
use elysium_dex.Math.Swap.{SwapStepComputation, into_u64, amount_less_fee, step_fee}

-- `checked_mul_div` and its twin, where they return.
mul_div-Rounds :
    (n0 n1 d : ℕ) (round_up : Bool) (q : ℕ)
    → 0 < d
    → checked_mul_div_round_up_if n0 n1 d round_up ≡ ok q
    → Rounds (n0 * n1) d round_up q
mul_div-Rounds n0 n1 d round_up q h e =
    subst (Rounds (n0 * n1) d round_up)
      (value_of d (ltb (n0 * n1) u128_mod) _ q h (sym (checked_mul_div_lem n0 n1 d round_up) ∙ e))
      (quotient-Rounds (n0 * n1) d round_up h)
  where
    value_of :
        (d : ℕ) (fits : Bool) (value q : ℕ)
        → 0 < d
        → (if d == 0 then err divide_by_zero else if fits then ok value else err mul_div_overflow)
          ≡ ok q
        → value ≡ q
    value_of d true value q h e = ground arith
    value_of d false value q h e = absurd (ground arith)

into_u64_lem : (n m : ℕ) → into_u64 n ≡ ok m → (n ≡ m) × (m < u64_mod)
unfolding into_u64
into_u64_lem n m e = ground arith

-- A fee rounded up fits beside an amount that was rounded down.
fee_fits :
    (amount remaining rate rest fee : ℕ)
    → amount * (rate + rest) ≤ remaining * rest
    → fee * rest < amount * rate + rest
    → amount + fee ≤ remaining
fee_fits a r f k n h l =
    let scaled : (a + n) * k < (r + 1) * k =
      omega (arith, mul-add a f k, add-mul a n k, add-mul r 1 k, one-mul k) in
    let less = lt_of_mul-lt-mul_right k {m = a + n} {n = r + 1} scaled in omega arith

-- The amount that an input leaves once its fee is taken off.
pub amount_less_fee_lem :
    (remaining fee_rate calc : ℕ)
    → fee_rate < fee_rate_mul_value
    → amount_less_fee remaining fee_rate true ≡ ok calc
    → (calc * fee_rate_mul_value ≤ remaining * (fee_rate_mul_value - fee_rate)) × (calc < u64_mod)
unfolding amount_less_fee checked_mul_div into_u64
amount_less_fee_lem remaining fee_rate calc h e =
    let (n, p, e1) =
      bind_returns
        (checked_mul_div_round_up_if remaining (sub_u128 fee_rate_mul_value fee_rate)
          fee_rate_mul_value false)
        _ e in
    let exact : sub_u128 fee_rate_mul_value fee_rate ≡ fee_rate_mul_value - fee_rate =
      omega arith in
    let (within, most) =
      mul_div-Rounds remaining (sub_u128 fee_rate_mul_value fee_rate) fee_rate_mul_value false n
        (omega arith) p in
    let within_rate = subst (λ d. n * fee_rate_mul_value ≤ remaining * d) exact within in
    let (same, fits) = into_u64_lem n calc e1 in (omega arith, fits)

-- The fee of an input that does not end the swap.
pub step_fee_lem :
    (remaining amount_in fee_rate fee : ℕ)
    → fee_rate < fee_rate_mul_value
    → amount_in * fee_rate_mul_value ≤ remaining * (fee_rate_mul_value - fee_rate)
    → step_fee remaining amount_in fee_rate false ≡ ok fee
    → amount_in + fee ≤ remaining
unfolding step_fee checked_mul_div_round_up into_u64
step_fee_lem remaining amount_in fee_rate fee h le e =
    let (n, p, e1) =
      bind_returns
        (checked_mul_div_round_up_if amount_in fee_rate (sub_u128 fee_rate_mul_value fee_rate) true)
        _ e in
    let exact : sub_u128 fee_rate_mul_value fee_rate ≡ fee_rate_mul_value - fee_rate =
      omega arith in
    let (covers, least) =
      mul_div-Rounds amount_in fee_rate (sub_u128 fee_rate_mul_value fee_rate) true n (omega arith)
        p in
    let (same, fits) = into_u64_lem n fee e1 in
    let rest = fee_rate_mul_value - fee_rate in
    let whole : fee_rate + rest ≡ fee_rate_mul_value = omega arith in
    subst (λ m. amount_in + m ≤ remaining) same
      (fee_fits amount_in remaining fee_rate rest n
        (subst (λ t. amount_in * t ≤ remaining * rest) (sym whole) le)
        (subst (λ d. n * d < amount_in * fee_rate + d) exact least))

pub ok_injective : {a b : ℕ} → ok a ≡ ok b → a ≡ b
ok_injective e = cc

pub le_or_lt : (a b : ℕ) → (a ≤ b) ⊎ (b < a)
le_or_lt a b = omega arith

pub reaches :
    (test : Bool) {target next : ℕ} (other : Result ℕ)
    → test ≡ true
    → (if test then ok target else other) ≡ ok next
    → target ≡ next
reaches true other p e = cc
reaches false other p e = absurd (grind arith)

pub stops :
    (test : Bool) (target : ℕ) {next : ℕ} (other : Result ℕ)
    → test ≡ false
    → (if test then ok target else other) ≡ ok next
    → other ≡ ok next
stops true target other p e = absurd (grind arith)
stops false target other p e = e

pub eq_of_test : (a b : ℕ) → (a == b) ≡ true → a ≡ b
eq_of_test a b e = ground arith

pub step_injective : {s s' : SwapStepComputation} → ok s ≡ ok s' → s ≡ s'
step_injective e = cc

-- The amount of the step is that of its own prices, also where it is taken over from the target.
pub fixed_at :
    (reached : Bool) (current target liquidity full next fixed : ℕ) (up : Bool)
    → (reached ≡ true → next ≡ target)
    → get_amount_delta_b current target liquidity up ≡ ok full
    → (if reached then ok full else get_amount_delta_b current next liquidity up) ≡ ok fixed
    → get_amount_delta_b current next liquidity up ≡ ok fixed
fixed_at true current target liquidity full next fixed up same cost e =
    ap (λ p. get_amount_delta_b current p liquidity up) (same refl) ∙ cost ∙ e
fixed_at false current target liquidity full next fixed up same cost e = e
