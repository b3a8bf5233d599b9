-- ===== src/Math/U256/Divide/Rounds.antt =====
-- The rounds of the long division of three and four words by two, three and four.
use elysium_dex.Base.{ℕ, ◌+◌, ◌*◌, ◌^◌, ◌≤◌, ◌<◌, ◌≡◌, ◌⊎◌, inl, inr, refl, ap, arith}
use elysium_dex.Errors.{Result, ok, panic, ◌>>=◌}
use elysium_dex.Math.U256.{U256Muldiv, items, zero_u256}
use elysium_dex.Math.U256.Value.{value, AreWords, u256_mod}
use elysium_dex.Math.U256.Shift.{times}
use elysium_dex.Math.U256.Divide.{long_division}
use elysium_dex.Math.U256.Divide.Rows.{two_words, three_words, four_words}
use elysium_dex.Math.U256.Divide.Words.{tops, Words2, Words3, Words4}
use elysium_dex.Math.U256.Divide.Steps.{
  Overestimates, then_returns, div_loop-0_2, div_loop-1_2, div_loop-2_2, div_loop-0_3, div_loop-1_3,
  div_loop-0_4,
}

-- A division of `w` by `v` that returns the quotient and the remainder.
abbrev pub Quotients : (w v : ℕ) → Result (U256Muldiv × U256Muldiv) → Type 0
Quotients w v result =
    (quotient : U256Muldiv) × (rest : U256Muldiv) × (result ≡ ok (quotient, rest))
    × AreWords quotient
    × AreWords rest
    × (w ≡ value quotient * v + value rest)
    × (value rest < v)

pub then_panics : {A B : Type 0} (m : Result A) (f : A → Result B) → m ≡ panic → (m >>= f) ≡ panic
then_panics m f e = ap (λ r. r >>= f) e

pub digits_3_2 :
    (u0 u1 u2 u3 y0 y1 : ℕ)
    → AreWords (items u0 u1 u2 u3)
    → Words2 (y0, y1)
    → 2 ^ 63 ≤ y1
    → two_words u2 u3 < two_words y0 y1
    → Quotients
        (value (items u0 u1 u2 u3))
        (two_words y0 y1)
        (long_division 2 2 (items u0 u1 u2 u3) 0 (items y0 y1 0 0) zero_u256)
unfolding long_division
digits_3_2 u0 u1 u2 u3 y0 y1 (h0, h1, h2, h3) hy top small =
    let (d1, (r1_0, r1_1), e_d1, (eq_d1, lt_d1, small_d1), (wr1_0, wr1_1)) =
      div_loop-1_2 u1 u2 u3 u0 0 y0 y1 (zero_u256) (h1, h2) hy top (omega arith) in
    let (d0, (r0_0, r0_1), e_d0, (eq_d0, lt_d0, small_d0), (wr0_0, wr0_1)) =
      div_loop-0_2 u0 r1_0 r1_1 0 0 y0 y1 (record (zero_u256) { item_1 = d1 }) (h0, wr1_0) hy top
        (omega arith) in
    (
      items d0 d1 0 0,
      items r0_0 r0_1 0 0,
      (then_returns _ _ e_d1 (then_returns _ _ e_d0 refl)),
      (small_d0, small_d1, (omega arith), (omega arith)),
      (wr0_0, wr0_1, (omega arith), (omega arith)),
      omega (arith, eq_d1, eq_d0, times d0 d1 0 0 (two_words y0 y1)),
      omega arith,
    )

pub digits_4_2 :
    (u0 u1 u2 u3 c y0 y1 : ℕ)
    → AreWords (items u0 u1 u2 u3)
    → Words2 (y0, y1)
    → 2 ^ 63 ≤ y1
    → two_words u3 c < two_words y0 y1
    → Quotients
        (value (items u0 u1 u2 u3) + u256_mod * c)
        (two_words y0 y1)
        (long_division 3 2 (items u0 u1 u2 u3) c (items y0 y1 0 0) zero_u256)
unfolding long_division
digits_4_2 u0 u1 u2 u3 c y0 y1 (h0, h1, h2, h3) hy top small =
    let (d2, (r2_0, r2_1), e_d2, (eq_d2, lt_d2, small_d2), (wr2_0, wr2_1)) =
      div_loop-2_2 u2 u3 c u0 u1 y0 y1 (zero_u256) (h2, h3) hy top (omega arith) in
    let (d1, (r1_0, r1_1), e_d1, (eq_d1, lt_d1, small_d1), (wr1_0, wr1_1)) =
      div_loop-1_2 u1 r2_0 r2_1 u0 0 y0 y1 (record (zero_u256) { item_2 = d2 }) (h1, wr2_0) hy top
        (omega arith) in
    let (d0, (r0_0, r0_1), e_d0, (eq_d0, lt_d0, small_d0), (wr0_0, wr0_1)) =
      div_loop-0_2 u0 r1_0 r1_1 0 0 y0 y1
        (record (record (zero_u256) { item_2 = d2 }) { item_1 = d1 }) (h0, wr1_0) hy top
        (omega arith) in
    (
      items d0 d1 d2 0,
      items r0_0 r0_1 0 0,
      (then_returns _ _ e_d2 (then_returns _ _ e_d1 (then_returns _ _ e_d0 refl))),
      (small_d0, small_d1, small_d2, (omega arith)),
      (wr0_0, wr0_1, (omega arith), (omega arith)),
      omega (arith, eq_d2, eq_d1, eq_d0, times d0 d1 d2 0 (two_words y0 y1)),
      omega arith,
    )

pub digits_3_3 :
    (u0 u1 u2 u3 y0 y1 y2 : ℕ)
    → AreWords (items u0 u1 u2 u3)
    → Words3 (y0, y1, y2)
    → 2 ^ 63 ≤ y2
    → three_words u1 u2 u3 < three_words y0 y1 y2
    → Quotients
        (value (items u0 u1 u2 u3))
        (three_words y0 y1 y2)
        (long_division 1 3 (items u0 u1 u2 u3) 0 (items y0 y1 y2 0) zero_u256)
unfolding long_division
digits_3_3 u0 u1 u2 u3 y0 y1 y2 (h0, h1, h2, h3) hy top small =
    let (d0, (r0_0, r0_1, r0_2), e_d0, (eq_d0, lt_d0, small_d0), (wr0_0, wr0_1, wr0_2)) =
      div_loop-0_3 u0 u1 u2 u3 0 y0 y1 y2 (zero_u256) (h0, h1, h2) hy top (omega arith) in
    (
      items d0 0 0 0,
      items r0_0 r0_1 r0_2 0,
      (then_returns _ _ e_d0 refl),
      (small_d0, (omega arith), (omega arith), (omega arith)),
      (wr0_0, wr0_1, wr0_2, (omega arith)),
      omega (arith, eq_d0, times d0 0 0 0 (three_words y0 y1 y2)),
      omega arith,
    )

pub digits_4_3 :
    (u0 u1 u2 u3 c y0 y1 y2 : ℕ)
    → AreWords (items u0 u1 u2 u3)
    → Words3 (y0, y1, y2)
    → 2 ^ 63 ≤ y2
    → three_words u2 u3 c < three_words y0 y1 y2
    → Quotients
        (value (items u0 u1 u2 u3) + u256_mod * c)
        (three_words y0 y1 y2)
        (long_division 2 3 (items u0 u1 u2 u3) c (items y0 y1 y2 0) zero_u256)
      ⊎ (long_division 2 3 (items u0 u1 u2 u3) c (items y0 y1 y2 0) zero_u256 ≡ panic
          × Overestimates
              (tops y2 y1 c u3 u2)
              (three_words u1 u2 u3 + 2 ^ 192 * c)
              (three_words y0 y1 y2))
unfolding long_division
digits_4_3 u0 u1 u2 u3 c y0 y1 y2 (h0, h1, h2, h3) hy top small =
    elim (div_loop-1_3 u1 u2 u3 c u0 y0 y1 y2 (zero_u256) (h1, h2, h3) hy top (omega arith)) [
      | inl (d1, (r1_0, r1_1, r1_2), e_d1, (eq_d1, lt_d1, small_d1), (wr1_0, wr1_1, wr1_2)) ↦
          let (d0, (r0_0, r0_1, r0_2), e_d0, (eq_d0, lt_d0, small_d0), (wr0_0, wr0_1, wr0_2)) =
            div_loop-0_3 u0 r1_0 r1_1 r1_2 0 y0 y1 y2 (record (zero_u256) { item_1 = d1 })
              (h0, wr1_0, wr1_1) hy top (omega arith) in
          inl (
            items d0 d1 0 0,
            items r0_0 r0_1 r0_2 0,
            (then_returns _ _ e_d1 (then_returns _ _ e_d0 refl)),
            (small_d0, small_d1, (omega arith), (omega arith)),
            (wr0_0, wr0_1, wr0_2, (omega arith)),
            omega (arith, eq_d1, eq_d0, times d0 d1 0 0 (three_words y0 y1 y2)),
            omega arith,
          )
      | inr (panics, over) ↦ inr (then_panics _ _ panics, over)
    ]

pub digits_4_4 :
    (u0 u1 u2 u3 c y0 y1 y2 y3 : ℕ)
    → AreWords (items u0 u1 u2 u3)
    → Words4 (y0, y1, y2, y3)
    → 2 ^ 63 ≤ y3
    → four_words u1 u2 u3 c < four_words y0 y1 y2 y3
    → Quotients
        (value (items u0 u1 u2 u3) + u256_mod * c)
        (four_words y0 y1 y2 y3)
        (long_division 1 4 (items u0 u1 u2 u3) c (items y0 y1 y2 y3) zero_u256)
      ⊎ (long_division 1 4 (items u0 u1 u2 u3) c (items y0 y1 y2 y3) zero_u256 ≡ panic
          × Overestimates
              (tops y3 y2 c u3 u2)
              (four_words u0 u1 u2 u3 + 2 ^ 256 * c)
              (four_words y0 y1 y2 y3))
unfolding long_division
digits_4_4 u0 u1 u2 u3 c y0 y1 y2 y3 (h0, h1, h2, h3) hy top small =
    elim (div_loop-0_4 u0 u1 u2 u3 c y0 y1 y2 y3 (zero_u256) (h0, h1, h2, h3) hy top
      (omega arith)) [
        | inl
              (
                d0,
                (r0_0, r0_1, r0_2, r0_3),
                e_d0,
                (eq_d0, lt_d0, small_d0),
                (wr0_0, wr0_1, wr0_2, wr0_3),
              ) ↦
            inl (
              items d0 0 0 0,
              items r0_0 r0_1 r0_2 r0_3,
              (then_returns _ _ e_d0 refl),
              (small_d0, (omega arith), (omega arith), (omega arith)),
              (wr0_0, wr0_1, wr0_2, wr0_3),
              omega (arith, eq_d0, times d0 0 0 0 (four_words y0 y1 y2 y3)),
              omega arith,
            )
        | inr (panics, over) ↦ inr (then_panics _ _ panics, over)
      ]
