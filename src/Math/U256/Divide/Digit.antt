-- ===== src/Math/U256/Divide/Digit.antt =====
-- One digit of the long division: the estimate is the digit, or one too large.
use elysium_dex.Base.{
  ℕ, zero, suc, ◌+◌, ◌-◌, ◌*◌, ◌≤◌, ◌<◌, ◌≡◌, ◌⊎◌, inl, inr, refl, sym, ap, ◌∙◌, arith, true, false,
  ltb,
}
use elysium_dex.Base.Words.{u64_mod, add_u128, sub_u128}
use elysium_dex.Math.U256.{lo}
use elysium_dex.Math.U256.Value.{lo-eq-mod}
use elysium_dex.Math.U256.Divide.Rows.{Subtracts, Restores}
use native.Mathlib.Nat.{mul-add, mul-zero, zero-mul, mul-one, suc-mul}

-- A digit with the remainder that it leaves.
abbrev pub IsDivided : (w v digit rest : ℕ) → Type 0
IsDivided w v digit rest = (w ≡ digit * v + rest) × (rest < v) × (digit < u64_mod)

-- What `div_loop` does next: it keeps the digit, or lowers it, which is too large, and adds the
-- divisor back. The head, above the other words, ends as zero either way.
abbrev pub Corrected : (w v head q s k a carry : ℕ) → Type 0
Corrected w v head q s k a carry =
    ((ltb head k ≡ false) × (lo (sub_u128 head k) ≡ 0) × IsDivided w v (lo q) s)
    ⊎ ((ltb head k ≡ true)
        × (lo (add_u128 (lo (sub_u128 head k)) carry) ≡ 0)
        × (w < q * v)
        × IsDivided w v (lo (sub_u128 q 1)) a)

no_room : (p v d : ℕ) → p * d < v → v ≤ p → d ≡ 0
no_room p v zero h l = refl
no_room p v (suc d) h l = absurd (omega (arith, h, mul-add p 1 d))

with_rest : (p k head : ℕ) → k ≤ head → p * head ≡ p * k + p * (head - k)
with_rest p k head le =
    let whole : head ≡ k + (head - k) = omega arith in
    ap (λ y. p * y) whole ∙ mul-add p k (head - k)

carry_one :
    (p a bound carry : ℕ) → p ≤ bound → bound ≤ a + p * carry → a < p → carry ≤ 1 → carry ≡ 1
carry_one p a bound zero h l s o = absurd (omega (arith, mul-zero p))
carry_one p a bound (suc c) h l s o = omega arith

positive_digit : (q v p s x : ℕ) → s + q * v ≡ x → p ≤ x → s < p → 1 ≤ q
positive_digit zero v p s x e l h = absurd (omega (arith, zero-mul v))
positive_digit (suc q) v p s x e l h = omega arith

-- The numbers of a step: the weight of the head, the divisor, and the words below the head.
module _ (p v x head q s k a carry : ℕ) where
  pub keeps_digit :
      k ≤ head
      → v ≤ p
      → head < u64_mod
      → q < u64_mod
      → Subtracts p x (q * v) s k
      → x + p * head < q * v + v
      → ltb head k ≡ false
      → Corrected (x + p * head) v head q s k a carry
  keeps_digit le hv hh hq (e, small, word) upper test =
      let whole = with_rest p k head le in
      let none : head - k ≡ 0 = no_room p v (head - k) (omega arith) (omega arith) in
      let same : lo q ≡ q = omega (arith, lo-eq-mod q) in
      let gone : p * (head - k) ≡ 0 = ap (λ y. p * y) none ∙ mul-zero p in
      let head_zero : lo (sub_u128 head k) ≡ 0 = omega (arith, lo-eq-mod (sub_u128 head k)) in
      let product : lo q * v ≡ q * v = ap (λ y. y * v) same in
      inl (test, head_zero, (omega arith, omega arith, omega arith))

  pub lowers_digit :
      head < k
      → v ≤ p
      → head < u64_mod
      → q < u64_mod
      → Subtracts p x (q * v) s k
      → Restores p s v a carry
      → q * v ≤ x + p * head + v
      → ltb head k ≡ true
      → Corrected (x + p * head) v head q s k a carry
  lowers_digit lt hv hh hq (e, small, word) (f, small_a, one) lower test =
      let over : head + 1 ≤ k = omega arith in
      let whole = with_rest p (head + 1) k over in
      let split = mul-add p head 1 in
      let d : ℕ = k - (head + 1) in
      let room : p + p * d ≤ a + p * carry = omega (arith, whole, split, mul-one p) in
      let carried : carry ≡ 1 = carry_one p a (p + p * d) carry (omega arith) room small_a one in
      let full : p * carry ≡ p = ap (λ y. p * y) carried ∙ mul-one p in
      let none : d ≡ 0 = no_room p p d (omega arith) (omega arith) in
      let gone : p * d ≡ 0 = ap (λ y. p * y) none ∙ mul-zero p in
      let positive =
        positive_digit q v p s (x + p * k) e (omega (arith, whole, split, mul-one p)) small in
      let borrowed = lo-eq-mod (sub_u128 head k) in
      let head_zero : lo (add_u128 (lo (sub_u128 head k)) carry) ≡ 0 =
        omega (arith, borrowed, lo-eq-mod (add_u128 (lo (sub_u128 head k)) carry)) in
      let same : lo (sub_u128 q 1) ≡ q - 1 = omega (arith, lo-eq-mod (sub_u128 q 1)) in
      let next : q ≡ suc (q - 1) = omega arith in
      let product : q * v ≡ lo (sub_u128 q 1) * v + v =
        ap (λ y. y * v) next ∙ suc-mul (q - 1) v ∙ ap (λ y. y * v + v) (sym same) in
      inr (
        test,
        head_zero,
        omega (arith, whole, split, mul-one p),
        (
          omega (arith, whole, split, mul-one p),
          omega (arith, whole, split, mul-one p),
          omega arith,
        ),
      )
