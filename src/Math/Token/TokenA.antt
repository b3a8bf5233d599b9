-- ===== src/Math/Token/TokenA.antt =====
-- What the functions on amounts of the token A and on prices return.
use elysium_dex.Base.{
  ℕ, ◌+◌, ◌-◌, ◌*◌, ◌≤◌, ◌<◌, ◌≡◌, refl, ap, subst, sym, ◌∙◌, arith, Bool, true, false, ltb, leb,
  ◌==◌, none, some, if◌then◌else◌, by_branch,
}
use elysium_dex.Base.Words.{u64_mod, u64_max, u128_mod, sub_u128}
use elysium_dex.Errors.{
  Result, ok, ok_or, fail_if, bind_returns, multiplication_overflow, token_max_exceeded,
  divide_by_zero, ◌>>=◌, ◌>>◌,
}
use elysium_dex.Math.U256.{
  U256Muldiv, new, add, sub, lte, try_into_u128, shift_word_left, checked_shift_word_left,
}
use elysium_dex.Math.U256.Value.{value, AreWords, add-value, sub-value, compare-value}
use elysium_dex.Math.U256.Multiply.{mul_u256}
use elysium_dex.Math.U256.Product.{mul_u256-value, new-value}
use elysium_dex.Math.U256.Divide.{div}
use elysium_dex.Math.Bit.{div_round_up_if_u256}
use elysium_dex.Math.Bit.Rounding.{Rounds}
use elysium_dex.Math.Bit.Quotient.{rounded, rounded_quotient-Rounds}
use elysium_dex.Math.Tick.{min_sqrt_price_x64, max_sqrt_price_x64}
use elysium_dex.Math.Token.{
  increasing_price_order, get_amount_delta_a, get_next_sqrt_price_from_a_round_up, check_price,
}
use elysium_dex.Math.Token.Rounding.{distance, sub-distance}
use native.Mathlib.Nat.{mul_comm, mul-le-mul}

checked_shift-value :
    (u w : U256Muldiv)
    → AreWords u
    → ok_or (checked_shift_word_left u) multiplication_overflow ≡ ok w
    → AreWords w × (value w ≡ value u * u64_mod)
unfolding checked_shift_word_left shift_word_left
checked_shift-value u w (h0, h1, h2, h3) e =
    let top : u.item_3 ≡ 0 = no_top (ltb 0 u.item_3) refl e in
    let moved : shift_word_left u ≡ w = below_top (ltb 0 u.item_3) e in
    subst (λ w. AreWords w × (value w ≡ value u * u64_mod)) moved
      ((omega arith, h0, h1, h2), omega arith)
  where
    no_top :
        (test : Bool)
        → test ≡ ltb 0 u.item_3
        → ok_or (if test then none else some (shift_word_left u)) multiplication_overflow ≡ ok w
        → u.item_3 ≡ 0
    no_top true same e = cc
    no_top false same e = grind arith

    below_top :
        (test : Bool)
        → ok_or (if test then none else some (shift_word_left u)) multiplication_overflow ≡ ok w
        → shift_word_left u ≡ w
    below_top true e = cc
    below_top false e = cc

ordered_product :
    (p q : ℕ) → (increasing_price_order p q).1 * (increasing_price_order p q).0 ≡ p * q
unfolding increasing_price_order
ordered_product p q =
    by_branch (λ (z : ℕ × ℕ). z.1 * z.0 ≡ p * q) (ltb q p) (λ less. refl) λ more. mul_comm q p

ordered_bounds :
    (p q : ℕ)
    → p < u128_mod
    → q < u128_mod
    → ((increasing_price_order p q).0 < u128_mod) × ((increasing_price_order p q).1 < u128_mod)
unfolding increasing_price_order
ordered_bounds p q hp hq = ground arith

limited :
    (result amount : ℕ)
    → (fail_if (ltb u64_max result) token_max_exceeded >> ok result) ≡ ok amount
    → (result ≡ amount) × (amount < u64_mod)
limited result amount e = ground arith

-- Where `get_amount_delta_a` returns, the amount is the liquidity times the distance of the prices,
-- scaled by 2^64, over the product of the prices, rounded as asked, and a `u64`. The prices, in
-- either order, and the liquidity are `u128`.
pub get_amount_delta_a-Rounds :
    (p q liquidity : ℕ) (round_up : Bool) (amount : ℕ)
    → p < u128_mod
    → q < u128_mod
    → liquidity < u128_mod
    → get_amount_delta_a p q liquidity round_up ≡ ok amount
    → (0 < p * q)
      × Rounds (liquidity * distance p q * u64_mod) (p * q) round_up amount
      × (amount < u64_mod)
unfolding get_amount_delta_a
get_amount_delta_a-Rounds p q liquidity round_up amount hp hq hl e =
    let lower = (increasing_price_order p q).0 in
    let upper = (increasing_price_order p q).1 in
    let apart = sub-distance p q hp hq in
    let (low_small, high_small) = ordered_bounds p q hp hq in
    let (w1, v1) = mul_u256-value liquidity (sub_u128 upper lower) hl (omega arith) in
    let (w2, v2) = mul_u256-value upper lower high_small low_small in
    let (numerator, e1, f1) =
      bind_returns
        (ok_or (checked_shift_word_left (mul_u256 liquidity (sub_u128 upper lower)))
          multiplication_overflow)
        _ e in
    let (wn, vn) =
      checked_shift-value (mul_u256 liquidity (sub_u128 upper lower)) numerator w1 e1 in
    let (found, e2, f2) = bind_returns (div numerator (mul_u256 upper lower) round_up) _ f1 in
    let (result, e3, f3) = bind_returns (try_into_u128 (rounded round_up found.0 found.1)) _ f2 in
    let (positive, rounds, small) =
      rounded_quotient-Rounds numerator (mul_u256 upper lower) round_up found result wn w2 e2 e3 in
    let (same, limit) = limited result amount f3 in
    let dividend : value numerator ≡ liquidity * distance p q * u64_mod =
      vn ∙ ap (λ y. y * u64_mod) (v1 ∙ ap (λ d. liquidity * d) apart) in
    let divisor : value (mul_u256 upper lower) ≡ p * q = v2 ∙ ordered_product p q in
    (
      subst (λ d. 0 < d) divisor positive,
      subst (λ n. Rounds n (p * q) round_up amount) dividend
          (subst (λ d. Rounds (value numerator) d round_up amount) divisor
            (subst (Rounds (value numerator) (value (mul_u256 upper lower)) round_up) same rounds)),
      limit,
    )

pub otherwise :
    (test : Bool) (x y : Result ℕ) {r : Result ℕ}
    → test ≡ false
    → (if test then x else y) ≡ r
    → y ≡ r
otherwise true x y t e = cc
otherwise false x y t e = e

pub above_test : (a b : ℕ) → leb a b ≡ false → b < a
above_test a b h = grind arith

pub positive_test : (n : ℕ) → 0 < n → (n == 0) ≡ false
positive_test n h = grind arith

-- The liquidity moved up by a word.
liquidity_shifted :
    (liquidity : ℕ)
    → liquidity < u128_mod
    → AreWords (shift_word_left (new 0 liquidity))
      × (value (shift_word_left (new 0 liquidity)) ≡ liquidity * u64_mod)
unfolding shift_word_left
liquidity_shifted liquidity h =
    let (words, same) = new-value 0 liquidity (omega arith) h in
    let (w0, w1, w2, w3) = words in ((omega arith, w0, w1, w2), omega arith)

-- The last two calls of `get_next_sqrt_price_from_a_round_up`.
checked_quotient :
    (u v : U256Muldiv) (p' : ℕ)
    → AreWords u
    → AreWords v
    → (div_round_up_if_u256 u v true >>= check_price) ≡ ok p'
    → Rounds (value u) (value v) true p' × (min_sqrt_price_x64 ≤ p') × (p' ≤ max_sqrt_price_x64)
unfolding div_round_up_if_u256 check_price
checked_quotient u v p' hu hv e =
    let (price, e1, f1) = bind_returns (div_round_up_if_u256 u v true) check_price e in
    let (found, e2, f2) = bind_returns (div u v true) _ e1 in
    let (positive, rounds, small) = rounded_quotient-Rounds u v true found price hu hv e2 f2 in
    let (same, low, high) = checked price p' f1 in
    (subst (Rounds (value u) (value v) true) same rounds, low, high)
  where
    checked :
        (price p' : ℕ)
        → check_price price ≡ ok p'
        → (price ≡ p') × (min_sqrt_price_x64 ≤ p') × (p' ≤ max_sqrt_price_x64)
    checked price p' e = ground arith

-- The price after an input of A.
pub next_price_a-input :
    (p liquidity amount p' : ℕ)
    → 0 < amount
    → amount < u64_mod
    → p < u128_mod
    → liquidity < u128_mod
    → get_next_sqrt_price_from_a_round_up p liquidity amount true ≡ ok p'
    → Rounds (liquidity * p * u64_mod) (liquidity * u64_mod + p * amount) true p'
      × (min_sqrt_price_x64 ≤ p')
      × (p' ≤ max_sqrt_price_x64)
unfolding get_next_sqrt_price_from_a_round_up
next_price_a-input p liquidity amount p' positive ha hp hl e =
    let started = otherwise (amount == 0) _ _ (positive_test amount positive) e in
    let (w1, v1) = mul_u256-value p amount hp (omega arith) in
    let (w2, v2) = mul_u256-value liquidity p hl hp in
    let (w3, v3) = liquidity_shifted liquidity hl in
    let (numerator, e1, f1) =
      bind_returns (ok_or (checked_shift_word_left (mul_u256 liquidity p)) multiplication_overflow)
        _ started in
    let (wn, vn) = checked_shift-value (mul_u256 liquidity p) numerator w2 e1 in
    let (ws, vs) = add-value (shift_word_left (new 0 liquidity)) (mul_u256 p amount) w3 w1 in
    let bound : p * amount ≤ u128_mod * u64_mod =
      mul-le-mul {n₁ = p} {m₁ = amount} {n₂ = u128_mod} {m₂ = u64_mod} (omega arith)
        (omega arith) in
    let sum : value (add (shift_word_left (new 0 liquidity)) (mul_u256 p amount))
        ≡ liquidity * u64_mod + p * amount =
      omega (arith, vs, v1, v3, bound) in
    let (rounds, low, high) =
      checked_quotient numerator (add (shift_word_left (new 0 liquidity)) (mul_u256 p amount)) p' wn
        ws f1 in
    (
      subst (λ n. Rounds n (liquidity * u64_mod + p * amount) true p')
          (vn ∙ ap (λ y. y * u64_mod) v2)
          (subst (λ d. Rounds (value numerator) d true p') sum rounds),
      low,
      high,
    )

-- The price after an output of A.
pub next_price_a-output :
    (p liquidity amount p' : ℕ)
    → 0 < amount
    → amount < u64_mod
    → p < u128_mod
    → liquidity < u128_mod
    → get_next_sqrt_price_from_a_round_up p liquidity amount false ≡ ok p'
    → (p * amount < liquidity * u64_mod)
      × Rounds (liquidity * p * u64_mod) (liquidity * u64_mod - p * amount) true p'
      × (min_sqrt_price_x64 ≤ p')
      × (p' ≤ max_sqrt_price_x64)
unfolding get_next_sqrt_price_from_a_round_up
next_price_a-output p liquidity amount p' positive ha hp hl e =
    let started = otherwise (amount == 0) _ _ (positive_test amount positive) e in
    let s = shift_word_left (new 0 liquidity) in
    let t = mul_u256 p amount in
    let (w1, v1) = mul_u256-value p amount hp (omega arith) in
    let (w2, v2) = mul_u256-value liquidity p hl hp in
    let (w3, v3) = liquidity_shifted liquidity hl in
    let (numerator, e1, f1) =
      bind_returns (ok_or (checked_shift_word_left (mul_u256 liquidity p)) multiplication_overflow)
        _ started in
    let (wn, vn) = checked_shift-value (mul_u256 liquidity p) numerator w2 e1 in
    let (u, guard, f2) = bind_returns (fail_if (lte s t) divide_by_zero) _ f1 in
    let (l, g, compared, ge, same_test) = compare-value s t w3 w1 in
    let passed : lte s t ≡ false = not_failed (lte s t) guard in
    let apart = above_test (value s) (value t) (sym compared ∙ passed) in
    let above : p * amount < liquidity * u64_mod = omega (arith, apart, v1, v3) in
    let (wd, vd) = sub-value s t w3 w1 in
    let difference : value (sub s t) ≡ liquidity * u64_mod - p * amount =
      omega (arith, vd, v1, v3, hl) in
    let (rounds, low, high) = checked_quotient numerator (sub s t) p' wn wd f2 in
    (
      above,
      subst (λ n. Rounds n (liquidity * u64_mod - p * amount) true p')
          (vn ∙ ap (λ y. y * u64_mod) v2)
          (subst (λ d. Rounds (value numerator) d true p') difference rounds),
      low,
      high,
    )
  where
    not_failed : (b : Bool) {u : Unit {0}} → fail_if b divide_by_zero ≡ ok u → b ≡ false
    not_failed true e = cc
    not_failed false e = refl
