-- ===== src/Math/U256/Divide/Estimate.antt =====
-- The estimate of a quotient digit, and the loop in `div_loop` that lowers it.
use elysium_dex.Base.{
  ℕ, zero, suc, ◌+◌, ◌-◌, ◌*◌, ◌/◌, ◌%◌, ◌^◌, ◌≤◌, ◌<◌, ◌≡◌, ◌⊎◌, inl, inr, refl, subst, ap, arith,
  Bool, true, false, not, ◌||◌, Option, some, ltb, ◌==◌, by_branch, ltb→lt,
}
use elysium_dex.Base.Words.{u64_mod, add_u128, sub_u128, mul_u128, u128_mod}
use elysium_dex.Math.U256.{hi, lo, hi_lo}
use elysium_dex.Math.U256.Value.{lo-eq-mod}
use elysium_dex.Math.U256.Product.{hi_lo-value}
use elysium_dex.Math.U256.Divide.{adjust_qhat}
use native.Mathlib.Nat.{
  suc-mul, add-mul, mul_comm, mul-le-mul, lt_of_mul-lt-mul_right, mod-lt, div-add-mod,
}

-- The divisor's top two words, and the dividend's top three.
pub record Tops : Type 0 where
  pub d1 : ℕ
  pub d2 : ℕ
  pub x2 : ℕ
  pub x1 : ℕ
  pub x0 : ℕ

-- They are words, the divisor is normalised, and the quotient of the top words is about a word.
abbrev pub AreTops : Tops → Type 0
AreTops w =
    (2 ^ 63 ≤ w.d1)
    × (w.d1 < u64_mod)
    × (w.d2 < u64_mod)
    × (w.x2 ≤ w.d1)
    × (w.x1 < u64_mod)
    × (w.x0 < u64_mod)

-- `q` times the top words of the divisor is within those of the dividend.
abbrev pub Within : Tops → ℕ → Type 0
Within w q = u64_mod * (q * w.d1) + q * w.d2 ≤ u64_mod * (u64_mod * w.x2 + w.x1) + w.x0

-- An estimate with what it leaves of the top two words.
abbrev IsEstimate : Tops → (q r : ℕ) → Type 0
IsEstimate w q r = (q ≤ u64_mod + 1) × (r < u64_mod) × (q * w.d1 + r ≡ u64_mod * w.x2 + w.x1)

-- The largest word that is within, as far as `t` tells.
abbrev pub IsDigit : Tops → (t : ℕ) → Option ℕ → Type 0
IsDigit w t found = (q : ℕ) × (found ≡ some q) × (q < u64_mod) × Within w q × (t ≤ q)

lt_or_eq : (q n : ℕ) → q ≤ n → (q < n) ⊎ (q ≡ n)
lt_or_eq q n h = omega arith

-- Once the remainder has left its word, the estimate is within.
left_word :
    (w : Tops) (q r : ℕ)
    → AreTops w
    → q ≤ u64_mod
    → u64_mod ≤ r
    → q * w.d1 + r ≡ u64_mod * w.x2 + w.x1
    → (q < u64_mod) × Within w q
left_word w q r (a, b, c, d, e, f) hq hr whole =
    let product : q * w.d2 ≤ u64_mod * (u64_mod - 1) =
      mul-le-mul {n₁ = q} {m₁ = w.d2} {n₂ = u64_mod} {m₂ = u64_mod - 1} hq (omega arith) in
    let full : q ≡ u64_mod → ⊥ = λ same. omega (arith, whole, ap (λ y. y * w.d1) same) in
    (
      elim (lt_or_eq q u64_mod hq) [ inl lt ↦ lt | inr same ↦ absurd (full same) ],
      omega (arith, whole, product),
    )

-- An estimate that is not a word, or not within, is not the digit.
below_estimate :
    (w : Tops) (t q r : ℕ)
    → IsEstimate w q r
    → t < u64_mod
    → Within w t
    → t ≤ q
    → (u64_mod ≤ q) ⊎ (r * u64_mod + w.x0 < q * w.d2)
    → t < q
below_estimate w t q r (a, b, c) ht inside le why = elim (lt_or_eq t q le) [
  | inl lt ↦ lt
  | inr same ↦ absurd (strict same)
]
  where
    strict : t ≡ q → ⊥
    strict same = elim why [
      | inl large ↦ omega arith
      | inr more ↦ omega (arith, ap (λ y. y * w.d1) same, ap (λ y. y * w.d2) same)
    ]

high_word : (x : ℕ) → x < u128_mod → not (hi x == 0) ≡ true → u64_mod ≤ x
unfolding hi
high_word x h e = grind arith

no_high_word : (x : ℕ) → x < u128_mod → not (hi x == 0) ≡ false → x < u64_mod
unfolding hi
no_high_word x h e = grind arith

either_holds : (a b : Bool) → a || b ≡ true → (a ≡ true) ⊎ (b ≡ true)
either_holds true b e = inl refl
either_holds false b e = inr e

neither_holds : (a b : Bool) → a || b ≡ false → (a ≡ false) × (b ≡ false)
neither_holds true b e = cc
neither_holds false b e = (refl, e)

-- The test of the loop, on an estimate that has two words.
lowers : (q x y : ℕ) → q < u128_mod → not (hi q == 0) || ltb x y ≡ true → (u64_mod ≤ q) ⊎ (x < y)
lowers q x y h e = elim (either_holds (not (hi q == 0)) (ltb x y) e) [
  | inl high ↦ inl (high_word q h high)
  | inr less ↦ inr (ltb→lt x y less)
]

settles : (q x y : ℕ) → q < u128_mod → not (hi q == 0) || ltb x y ≡ false → (q < u64_mod) × (y ≤ x)
settles q x y h e =
    let (no_high, no_less) = neither_holds (not (hi q == 0)) (ltb x y) e in
    (no_high_word q h no_high, grind arith)

adjust-IsDigit :
    (fuel : ℕ) (w : Tops) (t q r cmp_1 cmp_2 : ℕ)
    → AreTops w
    → IsEstimate w q r
    → t < u64_mod
    → Within w t
    → t ≤ q
    → u64_mod ≤ r + fuel * w.d1
    → cmp_1 ≡ r * u64_mod + w.x0
    → cmp_2 ≡ q * w.d2
    → IsDigit w t (adjust_qhat fuel w.d1 w.d2 q r cmp_1 cmp_2)
unfolding adjust_qhat hi lo
adjust-IsDigit zero w t q r cmp_1 cmp_2 tops (a, b, c) ht inside le enough e1 e2 =
    absurd (omega arith)
adjust-IsDigit (suc fuel) w t zero r cmp_1 cmp_2 tops (a, b, c) ht inside le enough e1 e2 =
    by_branch (IsDigit w t) (not (hi 0 == 0) || ltb cmp_1 cmp_2)
      (λ lower. absurd (not_lowered (lowers 0 cmp_1 cmp_2 (omega arith) lower)))
      λ done. (0, refl, omega arith, omega arith, le)
  where
    not_lowered : (u64_mod ≤ 0) ⊎ (cmp_1 < cmp_2) → ⊥
    not_lowered (inl large) = omega arith
    not_lowered (inr less) = omega arith
adjust-IsDigit (suc fuel) w t (suc q) r cmp_1 cmp_2 tops (a, b, c) ht inside le enough e1 e2 =
    let q' = sub_u128 (suc q) 1 in
    let r' = add_u128 r w.d1 in
    let eq : q' ≡ q = omega arith in
    let er : r' ≡ r + w.d1 = omega arith in
    let product : suc q * w.d1 ≡ q * w.d1 + w.d1 = suc-mul q w.d1 in
    let product_2 : suc q * w.d2 ≡ q * w.d2 + w.d2 = suc-mul q w.d2 in
    let product' = ap (λ y. y * w.d1) eq in
    let product_2' = ap (λ y. y * w.d2) eq in
    by_branch (IsDigit w t) (not (hi (suc q) == 0) || ltb cmp_1 cmp_2)
      (λ lower.
        let why : (u64_mod ≤ suc q) ⊎ (r * u64_mod + w.x0 < suc q * w.d2) =
          subst (λ y. (u64_mod ≤ suc q) ⊎ (y < suc q * w.d2)) e1
            (subst (λ y. (u64_mod ≤ suc q) ⊎ (cmp_1 < y)) e2
              (lowers (suc q) cmp_1 cmp_2 (omega arith) lower)) in
        let lt = below_estimate w t (suc q) r (a, b, c) ht inside le why in
        let whole : q' * w.d1 + r' ≡ u64_mod * w.x2 + w.x1 =
          omega (arith, c, product, product', er) in
        by_branch (IsDigit w t) (not (hi r' == 0))
          (λ left.
            let large = high_word r' (omega arith) left in
            let (word, within) = left_word w q' r' tops (omega arith) large whole in
            (q', refl, word, within, omega arith))
          λ inner.
            let small = no_high_word r' (omega arith) inner in
            let low_r = lo-eq-mod r' in
            let low_c = lo-eq-mod cmp_1 in
            let joined = hi_lo-value (lo r') (lo cmp_1) (omega arith) (omega arith) in
            let bound : suc q * w.d2 ≤ (u64_mod + 1) * (u64_mod - 1) =
              mul-le-mul {n₁ = suc q} {m₁ = w.d2} {n₂ = u64_mod + 1} {m₂ = u64_mod - 1} a
                (omega arith) in
            adjust-IsDigit fuel w t q' r' (hi_lo (lo r') (lo cmp_1)) (sub_u128 cmp_2 w.d2) tops
              (omega arith, small, whole) ht inside (omega arith)
              (omega (arith, enough, suc-mul fuel w.d1)) (omega (arith, joined, low_r, low_c, e1))
              (omega (arith, e2, bound)))
      λ done.
        let (word, within) = settles (suc q) cmp_1 cmp_2 (omega arith) done in
        (suc q, refl, word, omega (arith, c, within, e1, e2), le)

-- The loop from the first estimate, as `div_loop` runs it.
unfoldable pub first_estimate : Tops → ℕ
first_estimate w = hi_lo w.x2 w.x1 / w.d1

unfoldable pub first_rest : Tops → ℕ
unfolding first_estimate
first_rest w = sub_u128 (hi_lo w.x2 w.x1) (mul_u128 w.d1 (first_estimate w))

first-IsEstimate :
    (w : Tops) → AreTops w → IsEstimate w (first_estimate w) (first_rest w) × (first_rest w < w.d1)
unfolding first_rest
first-IsEstimate w (a, b, c, d, e, f) =
    let x = hi_lo w.x2 w.x1 in
    let q = first_estimate w in
    let r = first_rest w in
    let joined : x ≡ w.x2 * 2 ^ 64 + w.x1 = hi_lo-value w.x2 w.x1 (omega arith) e in
    let positive : 0 < w.d1 = omega arith in
    let divided : w.d1 * q + x % w.d1 ≡ x = division in
    let small : x % w.d1 < w.d1 = mod-lt x positive in
    let rest : r ≡ x % w.d1 = omega (arith, divided, joined) in
    let below : q * w.d1 < (u64_mod + 2) * w.d1 = omega (arith, mul_comm q w.d1, divided, joined) in
    let bound : q < u64_mod + 2 = lt_of_mul-lt-mul_right w.d1 below in
    ((omega arith, omega arith, omega (arith, mul_comm q w.d1, divided, joined, rest)), omega arith)
  where
    division : w.d1 * first_estimate w + hi_lo w.x2 w.x1 % w.d1 ≡ hi_lo w.x2 w.x1
    division = div-add-mod (hi_lo w.x2 w.x1) w.d1

-- The estimate that the loop ends with is the largest word whose product by the divisor's top words
-- is within the dividend's.
pub estimate-IsDigit :
    (w : Tops) (t : ℕ)
    → AreTops w
    → t < u64_mod
    → Within w t
    → IsDigit w t (
        adjust_qhat 3 w.d1 w.d2
          (first_estimate w)
          (first_rest w)
          (hi_lo (lo (first_rest w)) w.x0)
          (mul_u128 (first_estimate w) w.d2))
estimate-IsDigit w t (a, b, c, d, e, f) ht inside =
    let q = first_estimate w in
    let r = first_rest w in
    let (estimate, small) = first-IsEstimate w (a, b, c, d, e, f) in
    let (large, word, whole) = estimate in
    let product : t * w.d1 < (q + 1) * w.d1 = omega (arith, inside, whole, add-mul q 1 w.d1) in
    let low = lo-eq-mod r in
    let joined = hi_lo-value (lo r) w.x0 (omega arith) f in
    let bound : q * w.d2 ≤ (u64_mod + 1) * (u64_mod - 1) =
      mul-le-mul {n₁ = q} {m₁ = w.d2} {n₂ = u64_mod + 1} {m₂ = u64_mod - 1} large (omega arith) in
    adjust-IsDigit 3 w t q r (hi_lo (lo r) w.x0) (mul_u128 q w.d2) (a, b, c, d, e, f) estimate ht
      inside (omega (arith, lt_of_mul-lt-mul_right w.d1 product)) (omega arith)
      (omega (arith, joined, low)) (omega arith)
