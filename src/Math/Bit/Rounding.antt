-- ===== src/Math/Bit/Rounding.antt =====
-- Products, quotients and shifts against exact arithmetic: what rounding down and up give.
use elysium_dex.Base.{
  ℕ, zero, suc, ◌+◌, ◌*◌, ◌/◌, ◌%◌, ◌<◌, ◌≤◌, ◌≡◌, refl, Bool, true, false, ◌&&◌, arith, ltb, leb,
  ltb→lt, leb→le, ◌⊎◌, inl, inr, subst, sym, by_branch, ◌==◌, if◌then◌else◌,
}
use elysium_dex.Base.Bits.{bit_and-eq-mod}
use elysium_dex.Base.Words.{u64_mod, u64_max, u128_mod}
use elysium_dex.Errors.{
  Result, ok, err, divide_by_zero, mul_div_overflow, multiplication_overflow,
  multiplication_shift_right_overflow,
}
use elysium_dex.Math.Bit.{
  checked_mul_div_round_up_if, checked_mul_shift_right_round_up_if, div_round_up_if,
}
use native.Mathlib.Nat.{div-add-mod, mod-lt, mul-zero}

-- The quotient rounded down, or up.
abbrev pub quotient : ℕ → ℕ → Bool → ℕ
quotient n d round_up = if round_up && ltb 0 (n % d) then n / d + 1 else n / d

-- A quotient rounded up is the least number that covers the dividend, and one rounded down the
-- greatest that fits into it.
abbrev pub Rounds : ℕ → ℕ → Bool → ℕ → Type 0
Rounds n d true q = (n ≤ q * d) × (q * d < n + d)
Rounds n d false q = (q * d ≤ n) × (n < q * d + d)

pub quotient-Rounds : (n d : ℕ) (up : Bool) → 0 < d → Rounds n d up (quotient n d up)
quotient-Rounds n d true h = grind (arith, div-add-mod n d, mod-lt n h)
quotient-Rounds n d false h = grind (arith, div-add-mod n d, mod-lt n h)

-- Rounding up does not leave `u128`.
quotient-lt : (n d : ℕ) → 0 < d → 0 < n % d → n / d + 1 ≤ n
quotient-lt n d h r = grind (arith, div-add-mod n d)

-- `checked_mul_div_round_up_if` by its tests.
pub checked_mul_div_lem :
    (n0 n1 d : ℕ) (round_up : Bool)
    → checked_mul_div_round_up_if n0 n1 d round_up ≡ (
        if d == 0
        then err divide_by_zero
        else if ltb (n0 * n1) u128_mod
        then ok (quotient (n0 * n1) d round_up)
        else err mul_div_overflow)
unfolding checked_mul_div_round_up_if
checked_mul_div_lem n0 n1 zero round_up = refl
checked_mul_div_lem n0 n1 (suc d) round_up =
    ground (arith, quotient-lt (n0 * n1) (suc d) (omega arith))

-- What a rounded quotient of a product is, for each outcome: the divisor zero, a product that is no
-- `u128`, and the number that rounds the exact quotient, which is a `u128`.
abbrev pub ProductOverDivisor : (n0 n1 d : ℕ) → Bool → Result ℕ → Type 0
ProductOverDivisor n0 n1 d round_up result =
    ((d ≡ 0) × (result ≡ err divide_by_zero))
    ⊎ (((0 < d) × (u128_mod ≤ n0 * n1) × (result ≡ err mul_div_overflow))
        ⊎ ((q : ℕ) × (result ≡ ok q)
            × (0 < d)
            × (n0 * n1 < u128_mod)
            × Rounds (n0 * n1) d round_up q
            × (q < u128_mod)))

-- A product over 2^64: one that is no `u128`, one whose rounded quotient is no `u64`, and the number
-- that rounds the exact quotient.
abbrev pub ProductOverWord : (n0 n1 : ℕ) → Bool → Result ℕ → Type 0
ProductOverWord n0 n1 round_up result =
    ((u128_mod ≤ n0 * n1) × (result ≡ err multiplication_shift_right_overflow))
    ⊎ ((q : ℕ) × (n0 * n1 < u128_mod)
        × Rounds (n0 * n1) u64_mod round_up q
        × ((result ≡ ok q × q < u64_mod) ⊎ (result ≡ err multiplication_overflow × u64_mod ≤ q)))

quotient-le : (n d : ℕ) (up : Bool) → 0 < d → quotient n d up ≤ n
quotient-le n d true h = grind (arith, quotient-lt n d h, div-add-mod n d)
quotient-le n d false h = grind (arith, div-add-mod n d)

-- All outcomes of `checked_mul_shift_right_round_up_if`: the errors for a product that is no `u128`
-- and for a rounded result that is no `u64`, and otherwise the product over 2^64, rounded as asked.
pub checked_mul_shift_right_lem :
    (n0 n1 : ℕ) (round_up : Bool)
    → checked_mul_shift_right_round_up_if n0 n1 round_up ≡ (
        if ltb (n0 * n1) u128_mod
        then (if leb (quotient (n0 * n1) u64_mod round_up) u64_max
            then ok (quotient (n0 * n1) u64_mod round_up)
            else err multiplication_overflow)
        else err multiplication_shift_right_overflow)
unfolding checked_mul_shift_right_round_up_if
checked_mul_shift_right_lem zero n1 round_up = ground arith
checked_mul_shift_right_lem (suc n0) zero round_up = ground (arith, mul-zero (suc n0))
checked_mul_shift_right_lem (suc n0) (suc n1) round_up =
    ground (arith, bit_and-eq-mod 64 (suc n0 * suc n1) 0xffff_ffff_ffff_ffff refl)

-- All outcomes of `div_round_up_if` for a dividend that is a `u128`: an error for the divisor zero,
-- and otherwise the quotient, rounded as asked.
pub div_round_up_if_lem :
    (n d : ℕ) (round_up : Bool)
    → n < u128_mod
    → div_round_up_if n d round_up
      ≡ (if d == 0 then err divide_by_zero else ok (quotient n d round_up))
unfolding div_round_up_if
div_round_up_if_lem n zero round_up h = refl
div_round_up_if_lem n (suc d) round_up h = ground (arith, quotient-lt n (suc d) (omega arith))

not_below : (a b : ℕ) → ltb a b ≡ false → b ≤ a
not_below a b e = grind arith

not_within : (a b : ℕ) → leb a b ≡ false → b < a
not_within a b e = grind arith

rounded_product :
    (n0 n1 d : ℕ) (round_up : Bool)
    → ProductOverDivisor n0 n1 d round_up (checked_mul_div_round_up_if n0 n1 d round_up)
rounded_product n0 n1 d round_up =
    subst (ProductOverDivisor n0 n1 d round_up) (sym (checked_mul_div_lem n0 n1 d round_up)) (
      by_branch (ProductOverDivisor n0 n1 d round_up) (d == 0) (λ none. inl (grind arith, refl))
        λ some_divisor.
          let positive : 0 < d = grind arith in
          by_branch (ProductOverDivisor n0 n1 d round_up) (ltb (n0 * n1) u128_mod)
            (λ fits.
              let small : n0 * n1 < u128_mod = ltb→lt _ _ fits in
              let below = quotient-le (n0 * n1) d round_up positive in
              inr (
                inr (
                  quotient (n0 * n1) d round_up,
                  refl,
                  positive,
                  small,
                  quotient-Rounds (n0 * n1) d round_up positive,
                  omega (arith, below),
                )))
            λ large. inr (inl (positive, not_below (n0 * n1) u128_mod large, refl)))

rounded_shift :
    (n0 n1 : ℕ) (round_up : Bool)
    → ProductOverWord n0 n1 round_up (checked_mul_shift_right_round_up_if n0 n1 round_up)
rounded_shift n0 n1 round_up =
    let q = quotient (n0 * n1) u64_mod round_up in
    subst (ProductOverWord n0 n1 round_up) (sym (checked_mul_shift_right_lem n0 n1 round_up)) (
      by_branch (ProductOverWord n0 n1 round_up) (ltb (n0 * n1) u128_mod)
        (λ fits.
          let small : n0 * n1 < u128_mod = ltb→lt _ _ fits in
          let rounds = quotient-Rounds (n0 * n1) u64_mod round_up (omega arith) in
          by_branch (ProductOverWord n0 n1 round_up) (leb q u64_max)
            (λ word.
              let in_word = leb→le _ _ word in
              inr (q, small, rounds, inl (refl, omega (arith, in_word))))
            λ more.
              let out = not_within _ _ more in
              inr (q, small, rounds, inr (refl, omega (arith, out))))
        λ large. inl (not_below (n0 * n1) u128_mod large, refl))

-- All outcomes of a product over a divisor and of a product over 2^64: a divisor of zero, and a
-- product that is no `u128`, are errors; otherwise the result is the least number whose multiple
-- covers the exact product, or, rounded down, the greatest whose multiple fits into it. A quotient
-- by a divisor is always a `u128`, and one by 2^64 that is no `u64` is an error.
pub checked_mul_div-Rounds :
    (n0 n1 d : ℕ) (round_up : Bool)
    → ProductOverDivisor n0 n1 d round_up (checked_mul_div_round_up_if n0 n1 d round_up)
      × ProductOverWord n0 n1 round_up (checked_mul_shift_right_round_up_if n0 n1 round_up)
checked_mul_div-Rounds n0 n1 d round_up =
    (rounded_product n0 n1 d round_up, rounded_shift n0 n1 round_up)
