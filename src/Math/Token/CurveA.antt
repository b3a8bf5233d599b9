-- ===== src/Math/Token/CurveA.antt =====
-- A trade of the token A along the curve: the roundings are in the pool's favour.
use elysium_dex.Base.{ℕ, zero, suc, ◌+◌, ◌-◌, ◌*◌, ◌≤◌, ◌<◌, ◌≡◌, ap, sym, ◌∙◌, arith, true, false}
use elysium_dex.Base.Words.{u64_mod, u128_mod}
use elysium_dex.Errors.{ok}
use elysium_dex.Math.Token.{get_amount_delta_a, get_next_sqrt_price_from_a_round_up}
use elysium_dex.Math.Token.Rounding.{distance}
use native.Mathlib.Nat.{
  mul-add, suc-mul, lt_of_mul-lt-mul_right, le_of_mul-le-mul_right, mul-le-mul_left, mul_comm,
}
use elysium_dex.Math.Token.TokenA.{
  get_amount_delta_a-Rounds, next_price_a-input, next_price_a-output,
}

pub spread_cost : (x p p' a : ℕ) → p' * (x + p * a) ≡ x * p' + p * p' * a
spread_cost x p p' a = grind arith

pub move_factor : (l d : ℕ) → l * d * u64_mod ≡ l * u64_mod * d
move_factor l d = grind arith

pub part_of : (x p p' : ℕ) → p' ≤ p → x * p ≡ x * (p - p') + x * p'
part_of x p p' h =
    let whole : p ≡ p - p' + p' = omega arith in ap (λ y. x * y) whole ∙ mul-add x (p - p') p'

least_price : (x p p' a : ℕ) → p' * (x + p * a) < x * p + (x + p * a) → p' ≤ p
least_price x p zero a h = omega arith
least_price x p (suc n) a h =
    let next = suc-mul n (x + p * a) in
    let grown : n * (x + p * a) < p * (x + p * a) =
      omega (arith, h, next, mul-add p x (p * a), mul_comm x p) in
    lt_of_mul-lt-mul_right (x + p * a) grown

-- A trade that puts in an amount of A moves the price down, by no more than the amount pays for: what
-- the new price asks of A, rounded up, is within the amount. The new price is the least that the
-- amount reaches: one unit below it the equation of the curve is not met. The prices and the liquidity are
-- `u128`, and the amount is a `u64` that is not zero.
pub next_price-get_amount_delta_a :
    (p liquidity amount p' cost : ℕ)
    → 0 < amount
    → amount < u64_mod
    → p < u128_mod
    → liquidity < u128_mod
    → get_next_sqrt_price_from_a_round_up p liquidity amount true ≡ ok p'
    → get_amount_delta_a p p' liquidity true ≡ ok cost
    → (p' ≤ p)
      × (cost ≤ amount)
      × (p' * (liquidity * u64_mod + p * amount)
          < liquidity * p * u64_mod + (liquidity * u64_mod + p * amount))
next_price-get_amount_delta_a p liquidity amount p' cost positive ha hp hl next paid =
    let x : ℕ = liquidity * u64_mod in
    let ((covers, least), low, high) =
      next_price_a-input p liquidity amount p' positive ha hp hl next in
    let (product, (paid_covers, paid_least), small) =
      get_amount_delta_a-Rounds p p' liquidity true cost hp (omega arith) hl paid in
    let down : p' ≤ p = least_price x p p' amount (omega (arith, least, move_factor liquidity p)) in
    let apart : distance p p' ≡ p - p' = apart_down p p' down in
    let scaled : liquidity * distance p p' * u64_mod ≡ x * (p - p') =
      ap (λ d. liquidity * d * u64_mod) apart ∙ move_factor liquidity (p - p') in
    let bound : x * (p - p') ≤ p * p' * amount =
      omega
        (arith, covers, spread_cost x p p' amount, part_of x p p' down, move_factor liquidity p) in
    let less : cost * (p * p') < suc amount * (p * p') =
      omega (arith, paid_least, scaled, bound, suc-mul amount (p * p'), mul_comm (p * p') amount) in
    (down, omega (arith, lt_of_mul-lt-mul_right (p * p') less), least)
  where
    apart_down : (p p' : ℕ) → p' ≤ p → distance p p' ≡ p - p'
    apart_down p p' h = ground arith

less_liquidity : (x p p' a : ℕ) → a ≤ x → p' * (x - a) + p' * a ≡ x * p'
less_liquidity x p p' a h =
    let whole : x ≡ x - a + a = omega arith in
    sym (mul-add p' (x - a) a) ∙ ap (λ y. p' * y) (sym whole) ∙ mul_comm p' x

-- A trade that takes out an amount of A moves the price up, and by enough to pay for it: what the new
-- price gives of A, rounded down, is no less than the amount. The prices and the liquidity are `u128`,
-- and the amount is a `u64` that is not zero.
pub next_price_up-get_amount_delta_a :
    (p liquidity amount p' paid : ℕ)
    → 0 < amount
    → amount < u64_mod
    → p < u128_mod
    → liquidity < u128_mod
    → get_next_sqrt_price_from_a_round_up p liquidity amount false ≡ ok p'
    → get_amount_delta_a p p' liquidity false ≡ ok paid
    → (p ≤ p') × (amount ≤ paid)
next_price_up-get_amount_delta_a p liquidity amount p' paid positive ha hp hl next e =
    let x : ℕ = liquidity * u64_mod in
    let (above, (covers, least), low, high) =
      next_price_a-output p liquidity amount p' positive ha hp hl next in
    let (product, (within, most), small) =
      get_amount_delta_a-Rounds p p' liquidity false paid hp (omega arith) hl e in
    let rest : ℕ = x - p * amount in
    let moved : x * p ≤ p' * rest = omega (arith, covers, move_factor liquidity p) in
    let scaled_rest : p * rest ≤ p * x = mul-le-mul_left p (omega arith) in
    let chain : p * rest ≤ p' * rest = omega (arith, moved, scaled_rest, mul_comm p x) in
    let nonzero : 0 < rest = omega arith in
    let up : p ≤ p' = le_of_mul-le-mul_right chain nonzero in
    let apart : distance p p' ≡ p' - p = apart_up p p' up in
    let scaled : liquidity * distance p p' * u64_mod ≡ x * (p' - p) =
      ap (λ d. liquidity * d * u64_mod) apart ∙ move_factor liquidity (p' - p) in
    let bound : p * p' * amount ≤ x * (p' - p) = omega (
      arith,
      moved,
      less_liquidity x p p' (p * amount) (omega arith),
      part_of x p' p up,
      swapped p p' amount,
    ) in
    let less : amount * (p * p') < suc paid * (p * p') =
      omega (arith, most, scaled, bound, suc-mul paid (p * p'), mul_comm (p * p') amount) in
    (up, omega (arith, lt_of_mul-lt-mul_right (p * p') less))
  where
    apart_up : (p p' : ℕ) → p ≤ p' → distance p p' ≡ p' - p
    apart_up p p' h = ground arith

    swapped : (p p' a : ℕ) → p' * (p * a) ≡ p * p' * a
    swapped p p' a = grind arith
