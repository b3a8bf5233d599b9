-- ===== src/Math/U256/Divide/Normalised.antt =====
-- The division of normalised numbers, as `div` sets it up.
use elysium_dex.Base.{
  ℕ, ◌+◌, ◌-◌, ◌*◌, ◌/◌, ◌^◌, ◌<◌, ◌≡◌, ◌⊎◌, inl, inr, refl, sym, ap, ◌∙◌, arith, Bool,
}
use elysium_dex.Errors.{panic}
use elysium_dex.Math.U256.{U256Muldiv, items, zero_u256, get_word, shift_left}
use elysium_dex.Math.U256.Value.{value, AreWords, u256_mod}
use elysium_dex.Math.U256.Shift.{power_positive}
use elysium_dex.Math.U256.Shift.Whole.{value-small}
use elysium_dex.Math.U256.Divide.{leading_zeros, long_division, div_normalised}
use elysium_dex.Math.U256.Divide.Steps.{then_returns}
use elysium_dex.Math.U256.Divide.Rounds.{
  then_panics, digits_3_2, digits_4_2, digits_3_3, digits_4_3, digits_4_4,
}
use elysium_dex.Math.U256.Divide.Normalise.{shifted-value, carry_space-value}
use native.Mathlib.Nat.{zero-div, pow-le-pow_right, mul-lt-mul_of_pos_right}
use elysium_dex.Math.U256.Divide.Words.{tops}
use elysium_dex.Math.U256.Divide.Scaled.{
  Divides, IsOverestimated, Overestimates-Overshoots, finish, divisor_2, divisor_3, divisor_4,
}

-- The shifted dividend of three words, whose fourth word is what the shift moves up, and that of
-- four, where that goes to the carry space.
dividend_3 :
    (u0 u1 u2 s : ℕ)
    → AreWords (items u0 u1 u2 0)
    → s < 64
    → AreWords (shift_left (items u0 u1 u2 0) s)
      × (value (shift_left (items u0 u1 u2 0) s) ≡ value (items u0 u1 u2 0) * 2 ^ s)
      × ((shift_left (items u0 u1 u2 0) s).item_3 < 2 ^ 63)
dividend_3 u0 u1 u2 s (h0, h1, h2, h3) hs =
    let u = items u0 u1 u2 0 in
    let (words, e) = shifted-value u s (h0, h1, h2, h3) hs in
    let gone : 0 / 2 ^ (64 - s) ≡ 0 = zero-div (2 ^ (64 - s)) in
    let whole : value (shift_left u s) ≡ value u * 2 ^ s = omega (arith, e, gone) in
    let power = pow-le-pow_right {n = 2} (omega arith) {i = s} {j = 63} (omega arith) in
    let below : value u * 2 ^ s < 2 ^ 192 * 2 ^ s =
      mul-lt-mul_of_pos_right (omega arith) (power_positive s) in
    (words, whole, omega (arith, whole, power, below))

dividend_4 :
    (u : U256Muldiv) (s : ℕ)
    → AreWords u
    → s < 64
    → AreWords (shift_left u s)
      × (value (shift_left u s) + u256_mod * (u.item_3 / 2 ^ (64 - s)) ≡ value u * 2 ^ s)
      × (u.item_3 / 2 ^ (64 - s) < 2 ^ 63)
dividend_4 u s words hs =
    let (moved, e) = shifted-value u s words hs in
    let power = pow-le-pow_right {n = 2} (omega arith) {i = s} {j = 63} (omega arith) in
    let below : value u * 2 ^ s < u256_mod * 2 ^ s =
      mul-lt-mul_of_pos_right (value-small u words) (power_positive s) in
    (moved, e, omega (arith, e, power, below))

pub normalised_3_2 :
    (u0 u1 u2 v0 v1 : ℕ) (flag : Bool)
    → AreWords (items u0 u1 u2 0)
    → AreWords (items v0 v1 0 0)
    → 0 < v1
    → Divides
        (items u0 u1 u2 0)
        (items v0 v1 0 0)
        flag
        (div_normalised 3 2 (items u0 u1 u2 0) (items v0 v1 0 0) flag)
unfolding div_normalised get_word
normalised_3_2 u0 u1 u2 v0 v1 flag hu hv positive =
    let u = items u0 u1 u2 0 in
    let v = items v0 v1 0 0 in
    let s = leading_zeros 64 v1 in
    let x = shift_left u s in
    let w = shift_left v s in
    let (hs, same, words, top, scaled) = divisor_2 v0 v1 hv positive in
    let (moved, whole, small) = dividend_3 u0 u1 u2 s hu hs in
    let (q, r, returns, wq, wr, equation, below) =
      digits_3_2 x.item_0 x.item_1 x.item_2 x.item_3 w.item_0 w.item_1 moved words top
        (omega arith) in
    finish u v flag s q r (div_normalised 3 2 (items u0 u1 u2 0) (items v0 v1 0 0) flag)
      (omega arith) wq wr (omega (arith, whole, equation, ap (λ y. value q * y) scaled))
      (omega (arith, below, scaled))
      (then_returns _ _ (ap (λ z. long_division 2 2 x 0 z zero_u256) same ∙ returns) refl)

pub normalised_3_3 :
    (u0 u1 u2 v0 v1 v2 : ℕ) (flag : Bool)
    → AreWords (items u0 u1 u2 0)
    → AreWords (items v0 v1 v2 0)
    → 0 < v2
    → Divides
        (items u0 u1 u2 0)
        (items v0 v1 v2 0)
        flag
        (div_normalised 3 3 (items u0 u1 u2 0) (items v0 v1 v2 0) flag)
unfolding div_normalised get_word
normalised_3_3 u0 u1 u2 v0 v1 v2 flag hu hv positive =
    let u = items u0 u1 u2 0 in
    let v = items v0 v1 v2 0 in
    let s = leading_zeros 64 v2 in
    let x = shift_left u s in
    let w = shift_left v s in
    let (hs, same, words, top, scaled) = divisor_3 v0 v1 v2 hv positive in
    let (moved, whole, small) = dividend_3 u0 u1 u2 s hu hs in
    let (q, r, returns, wq, wr, equation, below) =
      digits_3_3 x.item_0 x.item_1 x.item_2 x.item_3 w.item_0 w.item_1 w.item_2 moved words top
        (omega arith) in
    finish u v flag s q r (div_normalised 3 3 (items u0 u1 u2 0) (items v0 v1 v2 0) flag)
      (omega arith) wq wr (omega (arith, whole, equation, ap (λ y. value q * y) scaled))
      (omega (arith, below, scaled))
      (then_returns _ _ (ap (λ z. long_division 1 3 x 0 z zero_u256) same ∙ returns) refl)

pub normalised_4_2 :
    (u0 u1 u2 u3 v0 v1 : ℕ) (flag : Bool)
    → AreWords (items u0 u1 u2 u3)
    → AreWords (items v0 v1 0 0)
    → 0 < v1
    → Divides
        (items u0 u1 u2 u3)
        (items v0 v1 0 0)
        flag
        (div_normalised 4 2 (items u0 u1 u2 u3) (items v0 v1 0 0) flag)
unfolding div_normalised get_word
normalised_4_2 u0 u1 u2 u3 v0 v1 flag hu hv positive =
    let u = items u0 u1 u2 u3 in
    let v = items v0 v1 0 0 in
    let s = leading_zeros 64 v1 in
    let x = shift_left u s in
    let w = shift_left v s in
    let (hs, same, words, top, scaled) = divisor_2 v0 v1 hv positive in
    let (moved, whole, small) = dividend_4 u s hu hs in
    let c = u3 / 2 ^ (64 - s) in
    let (q, r, returns, wq, wr, equation, below) =
      digits_4_2 x.item_0 x.item_1 x.item_2 x.item_3 c w.item_0 w.item_1 moved words top
        (omega arith) in
    finish u v flag s q r (div_normalised 4 2 (items u0 u1 u2 u3) (items v0 v1 0 0) flag)
      (omega arith) wq wr (omega (arith, whole, equation, ap (λ y. value q * y) scaled))
      (omega (arith, below, scaled))
      (then_returns _ _
        (ap (λ z. long_division 3 2 x z w zero_u256) (carry_space-value u3 s hu.3 hs)
          ∙ ap (λ z. long_division 3 2 x c z zero_u256) same
          ∙ returns)
        refl)

pub normalised_4_3 :
    (u0 u1 u2 u3 v0 v1 v2 : ℕ) (flag : Bool)
    → AreWords (items u0 u1 u2 u3)
    → AreWords (items v0 v1 v2 0)
    → 0 < v2
    → Divides
        (items u0 u1 u2 u3)
        (items v0 v1 v2 0)
        flag
        (div_normalised 4 3 (items u0 u1 u2 u3) (items v0 v1 v2 0) flag)
      ⊎ (div_normalised 4 3 (items u0 u1 u2 u3) (items v0 v1 v2 0) flag ≡ panic
          × IsOverestimated (items u0 u1 u2 u3) (items v0 v1 v2 0))
unfolding div_normalised get_word
normalised_4_3 u0 u1 u2 u3 v0 v1 v2 flag hu hv positive =
    let u = items u0 u1 u2 u3 in
    let v = items v0 v1 v2 0 in
    let s = leading_zeros 64 v2 in
    let x = shift_left u s in
    let w = shift_left v s in
    let (hs, same, words, top, scaled) = divisor_3 v0 v1 v2 hv positive in
    let (moved, whole, small) = dividend_4 u s hu hs in
    let c = u3 / 2 ^ (64 - s) in
    elim (digits_4_3 x.item_0 x.item_1 x.item_2 x.item_3 c w.item_0 w.item_1 w.item_2 moved words
      top (omega arith)) [
        | inl (q, r, returns, wq, wr, equation, below) ↦ inl (
            finish u v flag s q r (div_normalised 4 3 (items u0 u1 u2 u3) (items v0 v1 v2 0) flag)
              (omega arith) wq wr (omega (arith, whole, equation, ap (λ y. value q * y) scaled))
              (omega (arith, below, scaled))
              (then_returns _ _
                (ap (λ z. long_division 2 3 x z w zero_u256) (carry_space-value u3 s hu.3 hs)
                  ∙ ap (λ z. long_division 2 3 x c z zero_u256) same
                  ∙ returns)
                refl))
        | inr (panics, over) ↦ inr (
          then_panics _ _ (
              ap (λ z. long_division 2 3 x z w zero_u256) (carry_space-value u3 s hu.3 hs)
              ∙ ap (λ z. long_division 2 3 x c z zero_u256) same
              ∙ panics),
          (
            s,
            inl (
              omega (arith, scaled, top, words),
              omega (arith, scaled, words),
              Overestimates-Overshoots (tops w.item_2 w.item_1 c x.item_3 x.item_2) _ _
                  (value u * 2 ^ s) (value v * 2 ^ s) (2 ^ 64) (2 ^ 64) over (sym scaled)
                  (omega (arith, scaled, words)) (omega (arith, whole, moved))
                  (omega (arith, whole, moved)),
            ),
          ),
        )
      ]

pub normalised_4_4 :
    (u0 u1 u2 u3 v0 v1 v2 v3 : ℕ) (flag : Bool)
    → AreWords (items u0 u1 u2 u3)
    → AreWords (items v0 v1 v2 v3)
    → 0 < v3
    → Divides
        (items u0 u1 u2 u3)
        (items v0 v1 v2 v3)
        flag
        (div_normalised 4 4 (items u0 u1 u2 u3) (items v0 v1 v2 v3) flag)
      ⊎ (div_normalised 4 4 (items u0 u1 u2 u3) (items v0 v1 v2 v3) flag ≡ panic
          × IsOverestimated (items u0 u1 u2 u3) (items v0 v1 v2 v3))
unfolding div_normalised get_word
normalised_4_4 u0 u1 u2 u3 v0 v1 v2 v3 flag hu hv positive =
    let u = items u0 u1 u2 u3 in
    let v = items v0 v1 v2 v3 in
    let s = leading_zeros 64 v3 in
    let x = shift_left u s in
    let w = shift_left v s in
    let (hs, same, words, top, scaled) = divisor_4 v0 v1 v2 v3 hv positive in
    let (moved, whole, small) = dividend_4 u s hu hs in
    let c = u3 / 2 ^ (64 - s) in
    elim (digits_4_4 x.item_0 x.item_1 x.item_2 x.item_3 c w.item_0 w.item_1 w.item_2 w.item_3 moved
      words top (omega arith)) [
        | inl (q, r, returns, wq, wr, equation, below) ↦ inl (
            finish u v flag s q r (div_normalised 4 4 (items u0 u1 u2 u3) (items v0 v1 v2 v3) flag)
              (omega arith) wq wr (omega (arith, whole, equation, ap (λ y. value q * y) scaled))
              (omega (arith, below, scaled))
              (then_returns _ _
                (ap (λ z. long_division 1 4 x z w zero_u256) (carry_space-value u3 s hu.3 hs)
                  ∙ ap (λ z. long_division 1 4 x c z zero_u256) same
                  ∙ returns)
                refl))
        | inr (panics, over) ↦ inr (
          then_panics _ _ (
              ap (λ z. long_division 1 4 x z w zero_u256) (carry_space-value u3 s hu.3 hs)
              ∙ ap (λ z. long_division 1 4 x c z zero_u256) same
              ∙ panics),
          (
            s,
            inr (
              omega (arith, scaled, top, words),
              omega (arith, scaled, words),
              Overestimates-Overshoots (tops w.item_3 w.item_2 c x.item_3 x.item_2) _ _
                  (value u * 2 ^ s) (value v * 2 ^ s) (2 ^ 128) 1 over (sym scaled)
                  (omega (arith, scaled, words)) (omega (arith, whole, moved))
                  (omega (arith, whole, moved)),
            ),
          ),
        )
      ]
