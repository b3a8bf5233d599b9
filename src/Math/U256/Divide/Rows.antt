-- ===== src/Math/U256/Divide/Rows.antt =====
-- The two inner loops of `div_loop`: a multiple of the divisor is subtracted, and the divisor is
-- added back.
use elysium_dex.Base.{ℕ, ◌+◌, ◌*◌, ◌/◌, ◌^◌, ◌≤◌, ◌<◌, ◌≡◌, ap, ◌∙◌, arith}
use elysium_dex.Base.Words.{u64_mod, add_u128, sub_u128, mul_u128, sub_u64, as_u64}
use elysium_dex.Math.U256.{lo, lo_u128}
use elysium_dex.Math.U256.Value.{lo-eq-mod}
use elysium_dex.Math.U256.Product.{lo_u128-eq-mod, word_product}
use native.Mathlib.Nat.{mul-add, mul_left_comm}

-- One round of each: the word that is written, and what the next word has to give or gets.
abbrev pub subtract_word : (q x y k : ℕ) → ℕ × ℕ
subtract_word q x y k =
    let p = mul_u128 q y in
    let t = sub_u128 (sub_u128 x k) (lo_u128 p) in
    (lo t, sub_u64 (as_u64 (p / 2 ^ 64)) (as_u64 (t / 2 ^ 64)))

abbrev pub restore_word : (x y k : ℕ) → ℕ × ℕ
restore_word x y k = let t = add_u128 (add_u128 x y) k in (lo t, t / 2 ^ 64)

subtract_word-value :
    (q x y k : ℕ)
    → q < u64_mod
    → x < u64_mod
    → y < u64_mod
    → k < u64_mod
    → ((subtract_word q x y k).0 + q * y + k ≡ x + u64_mod * (subtract_word q x y k).1)
      × ((subtract_word q x y k).0 < u64_mod)
      × ((subtract_word q x y k).1 < u64_mod)
subtract_word-value q x y k hq hx hy hk =
    let bound = word_product q y hq hy in
    let p = mul_u128 q y in
    let low = lo_u128-eq-mod p in
    let t = sub_u128 (sub_u128 x k) (lo_u128 p) in
    let word = lo-eq-mod t in (omega arith, omega arith, omega arith)

restore_word-value :
    (x y k : ℕ)
    → x < u64_mod
    → y < u64_mod
    → k ≤ 1
    → ((restore_word x y k).0 + u64_mod * (restore_word x y k).1 ≡ x + y + k)
      × ((restore_word x y k).0 < u64_mod)
      × ((restore_word x y k).1 ≤ 1)
restore_word-value x y k hx hy hk =
    let word = lo-eq-mod (add_u128 (add_u128 x y) k) in (omega arith, omega arith, omega arith)

-- The rounds for a divisor of two, three and four words: the words that are written, and what is
-- left over.
abbrev pub subtract_2 : (q x0 x1 y0 y1 : ℕ) → ℕ × ℕ × ℕ
subtract_2 q x0 x1 y0 y1 =
    let (s0, k0) = subtract_word q x0 y0 0 in
    let (s1, k1) = subtract_word q x1 y1 k0 in (s0, s1, k1)

abbrev pub restore_2 : (x0 x1 y0 y1 : ℕ) → ℕ × ℕ × ℕ
restore_2 x0 x1 y0 y1 =
    let (s0, k0) = restore_word x0 y0 0 in let (s1, k1) = restore_word x1 y1 k0 in (s0, s1, k1)

abbrev pub subtract_3 : (q x0 x1 x2 y0 y1 y2 : ℕ) → ℕ × ℕ × ℕ × ℕ
subtract_3 q x0 x1 x2 y0 y1 y2 =
    let (s0, k0) = subtract_word q x0 y0 0 in
    let (s1, k1) = subtract_word q x1 y1 k0 in
    let (s2, k2) = subtract_word q x2 y2 k1 in (s0, s1, s2, k2)

abbrev pub restore_3 : (x0 x1 x2 y0 y1 y2 : ℕ) → ℕ × ℕ × ℕ × ℕ
restore_3 x0 x1 x2 y0 y1 y2 =
    let (s0, k0) = restore_word x0 y0 0 in
    let (s1, k1) = restore_word x1 y1 k0 in let (s2, k2) = restore_word x2 y2 k1 in (s0, s1, s2, k2)

abbrev pub subtract_4 : (q x0 x1 x2 x3 y0 y1 y2 y3 : ℕ) → ℕ × ℕ × ℕ × ℕ × ℕ
subtract_4 q x0 x1 x2 x3 y0 y1 y2 y3 =
    let (s0, k0) = subtract_word q x0 y0 0 in
    let (s1, k1) = subtract_word q x1 y1 k0 in
    let (s2, k2) = subtract_word q x2 y2 k1 in
    let (s3, k3) = subtract_word q x3 y3 k2 in (s0, s1, s2, s3, k3)

abbrev pub restore_4 : (x0 x1 x2 x3 y0 y1 y2 y3 : ℕ) → ℕ × ℕ × ℕ × ℕ × ℕ
restore_4 x0 x1 x2 x3 y0 y1 y2 y3 =
    let (s0, k0) = restore_word x0 y0 0 in
    let (s1, k1) = restore_word x1 y1 k0 in
    let (s2, k2) = restore_word x2 y2 k1 in
    let (s3, k3) = restore_word x3 y3 k2 in (s0, s1, s2, s3, k3)

-- A row of the two loops: `rest` words and a carry, for the number `x` and a multiple `y`.
abbrev pub Subtracts : (weight x y rest k : ℕ) → Type 0
Subtracts weight x y rest k = (rest + y ≡ x + weight * k) × (rest < weight) × (k < u64_mod)

abbrev pub Restores : (weight x y rest k : ℕ) → Type 0
Restores weight x y rest k = (rest + weight * k ≡ x + y) × (rest < weight) × (k ≤ 1)

-- Words, of which the first is the lowest.
abbrev pub two_words : ℕ → ℕ → ℕ
two_words a b = a + u64_mod * b

abbrev pub three_words : ℕ → ℕ → ℕ → ℕ
three_words a b c = a + u64_mod * (b + u64_mod * c)

abbrev pub four_words : ℕ → ℕ → ℕ → ℕ → ℕ
four_words a b c d = a + u64_mod * (b + u64_mod * (c + u64_mod * d))

pub times_word : (q y ys : ℕ) → q * (y + u64_mod * ys) ≡ q * y + u64_mod * (q * ys)
times_word q y ys = mul-add q y (u64_mod * ys) ∙ ap (λ z. q * y + z) (mul_left_comm q u64_mod ys)

pub subtract_2-Subtracts :
    (q x0 x1 y0 y1 : ℕ)
    → q < u64_mod
    → x0 < u64_mod
    → x1 < u64_mod
    → y0 < u64_mod
    → y1 < u64_mod
    → Subtracts
        (2 ^ 128)
        (two_words x0 x1)
        (q * two_words y0 y1)
        (two_words (subtract_2 q x0 x1 y0 y1).0 (subtract_2 q x0 x1 y0 y1).1)
        (subtract_2 q x0 x1 y0 y1).2
      × ((subtract_2 q x0 x1 y0 y1).0 < u64_mod)
      × ((subtract_2 q x0 x1 y0 y1).1 < u64_mod)
subtract_2-Subtracts q x0 x1 y0 y1 hq h0 h1 g0 g1 =
    let (e0, a0, b0) = subtract_word-value q x0 y0 (0) hq h0 g0 (omega arith) in
    let (e1, a1, b1) = subtract_word-value q x1 y1 ((subtract_word q x0 y0 0).1) hq h1 g1 b0 in
    let product_0 = times_word q y0 (y1) in
    ((omega (arith, e0, e1, product_0), omega arith, b1), a0, a1)

pub restore_2-Restores :
    (x0 x1 y0 y1 : ℕ)
    → x0 < u64_mod
    → x1 < u64_mod
    → y0 < u64_mod
    → y1 < u64_mod
    → Restores
        (2 ^ 128)
        (two_words x0 x1)
        (two_words y0 y1)
        (two_words (restore_2 x0 x1 y0 y1).0 (restore_2 x0 x1 y0 y1).1)
        (restore_2 x0 x1 y0 y1).2
      × ((restore_2 x0 x1 y0 y1).0 < u64_mod)
      × ((restore_2 x0 x1 y0 y1).1 < u64_mod)
restore_2-Restores x0 x1 y0 y1 h0 h1 g0 g1 =
    let (e0, a0, b0) = restore_word-value x0 y0 (0) h0 g0 (omega arith) in
    let (e1, a1, b1) = restore_word-value x1 y1 ((restore_word x0 y0 0).1) h1 g1 b0 in
    ((omega (arith, e0, e1), omega arith, b1), a0, a1)

pub subtract_3-Subtracts :
    (q x0 x1 x2 y0 y1 y2 : ℕ)
    → q < u64_mod
    → x0 < u64_mod
    → x1 < u64_mod
    → x2 < u64_mod
    → y0 < u64_mod
    → y1 < u64_mod
    → y2 < u64_mod
    → Subtracts
        (2 ^ 192)
        (three_words x0 x1 x2)
        (q * three_words y0 y1 y2)
        (three_words
          (subtract_3 q x0 x1 x2 y0 y1 y2).0
          (subtract_3 q x0 x1 x2 y0 y1 y2).1
          (subtract_3 q x0 x1 x2 y0 y1 y2).2)
        (subtract_3 q x0 x1 x2 y0 y1 y2).3
      × ((subtract_3 q x0 x1 x2 y0 y1 y2).0 < u64_mod)
      × ((subtract_3 q x0 x1 x2 y0 y1 y2).1 < u64_mod)
      × ((subtract_3 q x0 x1 x2 y0 y1 y2).2 < u64_mod)
subtract_3-Subtracts q x0 x1 x2 y0 y1 y2 hq h0 h1 h2 g0 g1 g2 =
    let (e0, a0, b0) = subtract_word-value q x0 y0 (0) hq h0 g0 (omega arith) in
    let (e1, a1, b1) = subtract_word-value q x1 y1 ((subtract_word q x0 y0 0).1) hq h1 g1 b0 in
    let (e2, a2, b2) =
      subtract_word-value q x2 y2 ((subtract_word q x1 y1 ((subtract_word q x0 y0 0).1)).1) hq h2 g2
        b1 in
    let product_0 = times_word q y0 (two_words y1 y2) in
    let product_1 = times_word q y1 (y2) in
    ((omega (arith, e0, e1, e2, product_0, product_1), omega arith, b2), a0, a1, a2)

pub restore_3-Restores :
    (x0 x1 x2 y0 y1 y2 : ℕ)
    → x0 < u64_mod
    → x1 < u64_mod
    → x2 < u64_mod
    → y0 < u64_mod
    → y1 < u64_mod
    → y2 < u64_mod
    → Restores
        (2 ^ 192)
        (three_words x0 x1 x2)
        (three_words y0 y1 y2)
        (three_words
          (restore_3 x0 x1 x2 y0 y1 y2).0
          (restore_3 x0 x1 x2 y0 y1 y2).1
          (restore_3 x0 x1 x2 y0 y1 y2).2)
        (restore_3 x0 x1 x2 y0 y1 y2).3
      × ((restore_3 x0 x1 x2 y0 y1 y2).0 < u64_mod)
      × ((restore_3 x0 x1 x2 y0 y1 y2).1 < u64_mod)
      × ((restore_3 x0 x1 x2 y0 y1 y2).2 < u64_mod)
restore_3-Restores x0 x1 x2 y0 y1 y2 h0 h1 h2 g0 g1 g2 =
    let (e0, a0, b0) = restore_word-value x0 y0 (0) h0 g0 (omega arith) in
    let (e1, a1, b1) = restore_word-value x1 y1 ((restore_word x0 y0 0).1) h1 g1 b0 in
    let (e2, a2, b2) =
      restore_word-value x2 y2 ((restore_word x1 y1 ((restore_word x0 y0 0).1)).1) h2 g2 b1 in
    ((omega (arith, e0, e1, e2), omega arith, b2), a0, a1, a2)

pub subtract_4-Subtracts :
    (q x0 x1 x2 x3 y0 y1 y2 y3 : ℕ)
    → q < u64_mod
    → x0 < u64_mod
    → x1 < u64_mod
    → x2 < u64_mod
    → x3 < u64_mod
    → y0 < u64_mod
    → y1 < u64_mod
    → y2 < u64_mod
    → y3 < u64_mod
    → Subtracts
        (2 ^ 256)
        (four_words x0 x1 x2 x3)
        (q * four_words y0 y1 y2 y3)
        (four_words
          (subtract_4 q x0 x1 x2 x3 y0 y1 y2 y3).0
          (subtract_4 q x0 x1 x2 x3 y0 y1 y2 y3).1
          (subtract_4 q x0 x1 x2 x3 y0 y1 y2 y3).2
          (subtract_4 q x0 x1 x2 x3 y0 y1 y2 y3).3)
        (subtract_4 q x0 x1 x2 x3 y0 y1 y2 y3).4
      × ((subtract_4 q x0 x1 x2 x3 y0 y1 y2 y3).0 < u64_mod)
      × ((subtract_4 q x0 x1 x2 x3 y0 y1 y2 y3).1 < u64_mod)
      × ((subtract_4 q x0 x1 x2 x3 y0 y1 y2 y3).2 < u64_mod)
      × ((subtract_4 q x0 x1 x2 x3 y0 y1 y2 y3).3 < u64_mod)
subtract_4-Subtracts q x0 x1 x2 x3 y0 y1 y2 y3 hq h0 h1 h2 h3 g0 g1 g2 g3 =
    let (e0, a0, b0) = subtract_word-value q x0 y0 (0) hq h0 g0 (omega arith) in
    let (e1, a1, b1) = subtract_word-value q x1 y1 ((subtract_word q x0 y0 0).1) hq h1 g1 b0 in
    let (e2, a2, b2) =
      subtract_word-value q x2 y2 ((subtract_word q x1 y1 ((subtract_word q x0 y0 0).1)).1) hq h2 g2
        b1 in
    let (e3, a3, b3) =
      subtract_word-value q x3 y3
        ((subtract_word q x2 y2 ((subtract_word q x1 y1 ((subtract_word q x0 y0 0).1)).1)).1) hq h3
        g3 b2 in
    let product_0 = times_word q y0 (three_words y1 y2 y3) in
    let product_1 = times_word q y1 (two_words y2 y3) in
    let product_2 = times_word q y2 y3 in
    (
      (omega (arith, e0, e1, e2, e3, product_0, product_1, product_2), omega arith, b3),
      a0,
      a1,
      a2,
      a3,
    )

pub restore_4-Restores :
    (x0 x1 x2 x3 y0 y1 y2 y3 : ℕ)
    → x0 < u64_mod
    → x1 < u64_mod
    → x2 < u64_mod
    → x3 < u64_mod
    → y0 < u64_mod
    → y1 < u64_mod
    → y2 < u64_mod
    → y3 < u64_mod
    → Restores
        (2 ^ 256)
        (four_words x0 x1 x2 x3)
        (four_words y0 y1 y2 y3)
        (four_words
          (restore_4 x0 x1 x2 x3 y0 y1 y2 y3).0
          (restore_4 x0 x1 x2 x3 y0 y1 y2 y3).1
          (restore_4 x0 x1 x2 x3 y0 y1 y2 y3).2
          (restore_4 x0 x1 x2 x3 y0 y1 y2 y3).3)
        (restore_4 x0 x1 x2 x3 y0 y1 y2 y3).4
      × ((restore_4 x0 x1 x2 x3 y0 y1 y2 y3).0 < u64_mod)
      × ((restore_4 x0 x1 x2 x3 y0 y1 y2 y3).1 < u64_mod)
      × ((restore_4 x0 x1 x2 x3 y0 y1 y2 y3).2 < u64_mod)
      × ((restore_4 x0 x1 x2 x3 y0 y1 y2 y3).3 < u64_mod)
restore_4-Restores x0 x1 x2 x3 y0 y1 y2 y3 h0 h1 h2 h3 g0 g1 g2 g3 =
    let (e0, a0, b0) = restore_word-value x0 y0 (0) h0 g0 (omega arith) in
    let (e1, a1, b1) = restore_word-value x1 y1 ((restore_word x0 y0 0).1) h1 g1 b0 in
    let (e2, a2, b2) =
      restore_word-value x2 y2 ((restore_word x1 y1 ((restore_word x0 y0 0).1)).1) h2 g2 b1 in
    let (e3, a3, b3) =
      restore_word-value x3 y3
        ((restore_word x2 y2 ((restore_word x1 y1 ((restore_word x0 y0 0).1)).1)).1) h3 g3 b2 in
    ((omega (arith, e0, e1, e2, e3), omega arith, b3), a0, a1, a2, a3)
