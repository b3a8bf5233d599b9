-- ===== src/Math/Token/Rounding.antt =====
-- Amounts of the token B against prices: the roundings are in the pool's favour.
use elysium_dex.Base.{
  ℕ, zero, suc, ◌+◌, ◌-◌, ◌*◌, ◌%◌, ◌^◌, ◌≤◌, ◌<◌, ◌≡◌, ap, subst, sym, ◌∙◌, arith, Bool, true,
  false, ltb, leb, ◌==◌, if◌then◌else◌,
}
use elysium_dex.Base.Words.{u64_mod, u64_max, u128_mod, sub_u128, checked_add_u128, checked_sub}
use elysium_dex.Errors.{
  ok, err, ok_or, bind_returns, sqrt_price_out_of_bounds, divide_by_zero, multiplication_overflow,
  multiplication_shift_right_overflow,
}
use elysium_dex.Math.Bit.{checked_mul_shift_right_round_up_if, div_round_up_if}
use elysium_dex.Math.Bit.Rounding.{
  quotient, Rounds, quotient-Rounds, checked_mul_shift_right_lem, div_round_up_if_lem,
}
use native.Mathlib.Nat.{mul_comm, add-mul, one-mul}
use elysium_dex.Math.Token.{
  increasing_price_order, get_amount_delta_b, get_next_sqrt_price_from_b_round_down,
}

-- How far two prices are apart.
abbrev pub distance : ℕ → ℕ → ℕ
distance p q = if ltb q p then p - q else q - p

pub sub-distance :
    (p q : ℕ)
    → p < u128_mod
    → q < u128_mod
    → sub_u128 (increasing_price_order p q).1 (increasing_price_order p q).0 ≡ distance p q
unfolding increasing_price_order
sub-distance p q hp hq = ground arith

-- Every outcome of `get_amount_delta_b` for two prices that are `u128`, in either order: the errors
-- for a product with the liquidity that is no `u128` and for an amount that is no `u64`, and
-- otherwise the liquidity times the distance of the prices, over 2^64, rounded as asked.
pub get_amount_delta_b_lem :
    (p q liquidity : ℕ) (round_up : Bool)
    → p < u128_mod
    → q < u128_mod
    → get_amount_delta_b p q liquidity round_up ≡ (
        if ltb (liquidity * distance p q) u128_mod
        then (if leb (quotient (liquidity * distance p q) u64_mod round_up) u64_max
            then ok (quotient (liquidity * distance p q) u64_mod round_up)
            else err multiplication_overflow)
        else err multiplication_shift_right_overflow)
unfolding get_amount_delta_b
get_amount_delta_b_lem p q liquidity round_up hp hq =
    ap (λ d. checked_mul_shift_right_round_up_if liquidity d round_up) (sub-distance p q hp hq)
    ∙ checked_mul_shift_right_lem liquidity (distance p q) round_up

not_zero :
    (d value result : ℕ)
    → 0 < d
    → (if d == 0 then err divide_by_zero else ok value) ≡ ok result
    → value ≡ result
not_zero d value result h e = ground arith

returned :
    (fits within : Bool) (value amount : ℕ)
    → (if fits
        then (if within then ok value else err multiplication_overflow)
        else err multiplication_shift_right_overflow)
      ≡ ok amount
    → value ≡ amount
returned true true value amount e = grind arith
returned true false value amount e = cc
returned false within value amount e = cc

-- What `get_amount_delta_b` returns.
pub get_amount_delta_b-Rounds :
    (p q liquidity : ℕ) (round_up : Bool) (amount : ℕ)
    → p < u128_mod
    → q < u128_mod
    → get_amount_delta_b p q liquidity round_up ≡ ok amount
    → Rounds (liquidity * distance p q) u64_mod round_up amount
get_amount_delta_b-Rounds p q liquidity round_up amount hp hq e =
    let n = liquidity * distance p q in
    subst (Rounds n u64_mod round_up)
      (returned (ltb n u128_mod) (leb (quotient n u64_mod round_up) u64_max) _ amount
        (sym (get_amount_delta_b_lem p q liquidity round_up hp hq) ∙ e))
      (quotient-Rounds n u64_mod round_up (omega arith))

-- The change of the price, where `div_round_up_if` returns.
delta-Rounds :
    (amount liquidity : ℕ) (round_up : Bool) (delta : ℕ)
    → amount < u64_mod
    → div_round_up_if (amount * 2 ^ 64 % u128_mod) liquidity round_up ≡ ok delta
    → (0 < liquidity) × Rounds (amount * 2 ^ 64) liquidity round_up delta
delta-Rounds amount zero round_up delta h e =
    absurd
      (ground (arith, div_round_up_if_lem (amount * 2 ^ 64 % u128_mod) zero round_up (omega arith)))
delta-Rounds amount (suc l) round_up delta h e =
    let exact : amount * 2 ^ 64 % u128_mod ≡ amount * 2 ^ 64 = omega arith in
    let made = div_round_up_if_lem (amount * 2 ^ 64 % u128_mod) (suc l) round_up (omega arith) in
    let value : quotient (amount * 2 ^ 64 % u128_mod) (suc l) round_up ≡ delta =
      not_zero (suc l) _ delta (omega arith) (sym made ∙ e) in
    (
      omega arith,
      subst (λ n. Rounds n (suc l) round_up delta) exact
          (subst (Rounds (amount * 2 ^ 64 % u128_mod) (suc l) round_up) value
            (quotient-Rounds (amount * 2 ^ 64 % u128_mod) (suc l) round_up (omega arith))),
    )

added :
    (p delta p' : ℕ)
    → ok_or (checked_add_u128 p delta) sqrt_price_out_of_bounds ≡ ok p'
    → (p + delta ≡ p') × (p' < u128_mod)
added p delta p' e = ground arith

taken :
    (p delta p' : ℕ) → ok_or (checked_sub p delta) sqrt_price_out_of_bounds ≡ ok p' → p' + delta ≡ p
taken p delta p' e = ground arith

-- The price after an input of B.
pub next_price-input :
    (p liquidity amount p' : ℕ)
    → amount < u64_mod
    → get_next_sqrt_price_from_b_round_down p liquidity amount true ≡ ok p'
    → (p ≤ p')
      × (p' < u128_mod)
      × (0 < liquidity)
      × Rounds (amount * 2 ^ 64) liquidity false (p' - p)
unfolding get_next_sqrt_price_from_b_round_down
next_price-input p liquidity amount p' h e =
    let (delta, q, e1) =
      bind_returns (div_round_up_if (amount * 2 ^ 64 % u128_mod) liquidity false) _ e in
    let (positive, rounds) = delta-Rounds amount liquidity false delta h q in
    let (sum, fits) = added p delta p' e1 in
    let moved : delta ≡ p' - p = omega arith in
    (omega arith, fits, positive, subst (Rounds (amount * 2 ^ 64) liquidity false) moved rounds)

-- The price after an output of B.
pub next_price-output :
    (p liquidity amount p' : ℕ)
    → amount < u64_mod
    → get_next_sqrt_price_from_b_round_down p liquidity amount false ≡ ok p'
    → (p' ≤ p) × (0 < liquidity) × Rounds (amount * 2 ^ 64) liquidity true (p - p')
unfolding get_next_sqrt_price_from_b_round_down
next_price-output p liquidity amount p' h e =
    let (delta, q, e1) =
      bind_returns (div_round_up_if (amount * 2 ^ 64 % u128_mod) liquidity true) _ e in
    let (positive, rounds) = delta-Rounds amount liquidity true delta h q in
    let sum = taken p delta p' e1 in
    let moved : delta ≡ p - p' = omega arith in
    (omega arith, positive, subst (Rounds (amount * 2 ^ 64) liquidity true) moved rounds)

-- A trade that puts in an amount of B moves the price up, by no more than the amount pays for: what
-- the new price asks of B, rounded up, is within the amount. The next unit of price would cost
-- more than the amount.
pub next_price-get_amount_delta_b :
    (p liquidity amount p' cost : ℕ)
    → amount < u64_mod
    → p < u128_mod
    → get_next_sqrt_price_from_b_round_down p liquidity amount true ≡ ok p'
    → get_amount_delta_b p p' liquidity true ≡ ok cost
    → (p ≤ p') × (cost ≤ amount) × (amount * 2 ^ 64 < (p' - p + 1) * liquidity)
next_price-get_amount_delta_b p liquidity amount p' cost h hp next paid =
    let (up, fits, positive, (low, high)) = next_price-input p liquidity amount p' h next in
    let (covers, least) = get_amount_delta_b-Rounds p p' liquidity true cost hp fits paid in
    let apart : distance p p' ≡ p' - p = ground arith in
    let same : liquidity * distance p p' ≡ (p' - p) * liquidity =
      ap (λ d. liquidity * d) apart ∙ mul_comm liquidity (p' - p) in
    (up, omega arith, omega (arith, add-mul (p' - p) 1 liquidity, one-mul liquidity))

-- A trade that takes out an amount of B moves the price down, and by enough to pay for it: what the
-- new price gives of B, rounded down, is no less than the amount.
pub next_price_down-get_amount_delta_b :
    (p liquidity amount p' paid : ℕ)
    → amount < u64_mod
    → p < u128_mod
    → get_next_sqrt_price_from_b_round_down p liquidity amount false ≡ ok p'
    → get_amount_delta_b p p' liquidity false ≡ ok paid
    → (p' ≤ p) × (amount ≤ paid)
next_price_down-get_amount_delta_b p liquidity amount p' paid h hp next e =
    let (down, positive, (low, high)) = next_price-output p liquidity amount p' h next in
    let (fit, most) = get_amount_delta_b-Rounds p p' liquidity false paid hp (omega arith) e in
    let apart : distance p p' ≡ p - p' = ground arith in
    let same : liquidity * distance p p' ≡ (p - p') * liquidity =
      ap (λ d. liquidity * d) apart ∙ mul_comm liquidity (p - p') in
    (down, omega arith)
