-- ===== src/Math/U256/Divide/Bounds.antt =====
-- The digit that the top words give, against the whole dividend and divisor.
use elysium_dex.Base.{ℕ, ◌+◌, ◌*◌, ◌/◌, ◌≤◌, ◌<◌, ◌≡◌, ap, ◌∙◌, arith}
use elysium_dex.Base.Words.{u64_mod}
use elysium_dex.Math.U256.Divide.Estimate.{Tops, AreTops, Within}
use native.Mathlib.Nat.{
  mul-add, mul-one, mul_left_comm, mul_comm, mul-le-mul, mul-le-mul_left, mul-le-mul_right,
  lt_of_mul-lt-mul_left, div-add-mod, mod-lt,
}

abbrev pub divisor_top : Tops → ℕ
divisor_top t = t.d2 + u64_mod * t.d1

abbrev pub dividend_top : Tops → ℕ
dividend_top t = t.x0 + u64_mod * (t.x1 + u64_mod * t.x2)

-- The whole numbers, with the words below the top ones, and the weight of the top ones.
abbrev pub divisor_of : Tops → (r low : ℕ) → ℕ
divisor_of t r low = low + r * divisor_top t

abbrev pub dividend_of : Tops → (r below : ℕ) → ℕ
dividend_of t r below = below + r * dividend_top t

module _ (t : Tops) (r low below q : ℕ) where
  pub top_product : q * divisor_top t ≡ u64_mod * (q * t.d1) + q * t.d2
  top_product =
      let e = mul-add q t.d2 (u64_mod * t.d1) in let f = mul_left_comm q u64_mod t.d1 in omega arith

  whole_product : q * divisor_of t r low ≡ q * low + r * (q * divisor_top t)
  whole_product =
      mul-add q low (r * divisor_top t) ∙ ap (λ y. q * low + y) (mul_left_comm q r (divisor_top t))

  pub product-Within : below < r → q * divisor_of t r low ≤ dividend_of t r below → Within t q
  product-Within small le =
      let next = mul-add r (dividend_top t) 1 in
      let one = mul-one r in
      let lt : r * (q * divisor_top t) < r * (dividend_top t + 1) =
        omega (arith, whole_product, next, one) in
      let lt' = lt_of_mul-lt-mul_left r lt in omega (arith, top_product, lt')

  pub Within-product :
      AreTops t
      → low < r
      → q < u64_mod
      → Within t q
      → q * divisor_of t r low ≤ dividend_of t r below + divisor_of t r low
  Within-product (a, b, c, d, e, f) small hq within =
      let top : q * divisor_top t ≤ dividend_top t = omega (arith, top_product, within) in
      let scaled : r * (q * divisor_top t) ≤ r * dividend_top t = mul-le-mul_left r top in
      let rest : q * low ≤ u64_mod * r =
        mul-le-mul {n₁ = q} {m₁ = low} {n₂ = u64_mod} {m₂ = r} (omega arith) (omega arith) in
      let large : u64_mod * r ≤ divisor_top t * r = mul-le-mul_right r (omega arith) in
      omega (arith, whole_product, scaled, rest, large, mul_comm (divisor_top t) r)

-- The quotient of a dividend below the divisor moved up by a word is a word.
pub quotient-small : (w v : ℕ) → 0 < v → w < u64_mod * v → w / v < u64_mod
quotient-small w v hv h =
    lt_of_mul-lt-mul_left v (omega (arith, div-add-mod w v, mul_comm u64_mod v))

pub quotient-le : (w v : ℕ) → w / v * v ≤ w
quotient-le w v = omega (arith, div-add-mod w v, mul_comm v (w / v))

pub below_next : (w v q : ℕ) → 0 < v → w / v ≤ q → w < q * v + v
below_next w v q hv le =
    omega (arith, div-add-mod w v, mod-lt w hv, mul_comm v (w / v), mul-le-mul_right v le)
