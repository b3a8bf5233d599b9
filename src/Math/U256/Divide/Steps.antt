-- ===== src/Math/U256/Divide/Steps.antt =====
-- `div_loop` at each index, for a divisor of two, three and four words.
use elysium_dex.Base.{
  ℕ, ◌+◌, ◌*◌, ◌^◌, ◌≤◌, ◌<◌, ◌≡◌, ◌⊎◌, inl, inr, refl, ap, ◌∙◌, arith, Bool, true, false, ltb,
  ltb→lt, if◌then◌else◌,
}
use elysium_dex.Base.Words.{u64_mod, sub_u128, add_u128}
use elysium_dex.Errors.{Result, ok, panic, unwrap, ◌>>=◌}
use elysium_dex.Math.U256.{U256Muldiv, items, lo, get_word, update_word}
use elysium_dex.Math.U256.Divide.{div_loop, subtract_row, add_row, add_back}
use elysium_dex.Math.U256.Divide.Estimate.{Tops, Within, first_estimate, first_rest}
use elysium_dex.Math.U256.Divide.Rows.{
  two_words, three_words, four_words, subtract_2, subtract_3, subtract_4, restore_2, restore_3,
  restore_4, subtract_2-Subtracts, times_word,
}
use elysium_dex.Math.U256.Divide.Digit.{Corrected, IsDivided}
use elysium_dex.Math.U256.Divide.Words.{
  tops, Words2, Words3, Words4, corrected_2, corrected_3, corrected_4,
}

pub then_returns :
    {A B : Type 0} (m : Result A) (f : A → Result B) {a : A} {b : Result B}
    → m ≡ ok a
    → f a ≡ b
    → (m >>= f) ≡ b
then_returns m f e g = ap (λ r. r >>= f) e ∙ g

chosen_then :
    {A B : Type 0} (test : Bool) (r s : Result A) (f : A → Result B)
    → test ≡ true
    → ((if test then r else s) >>= f) ≡ (r >>= f)
chosen_then true r s f e = refl
chosen_then false r s f e = cc

chosen_else :
    {A B : Type 0} (test : Bool) (r s : Result A) (f : A → Result B)
    → test ≡ false
    → ((if test then r else s) >>= f) ≡ (s >>= f)
chosen_else true r s f e = cc
chosen_else false r s f e = refl

-- What a round of the division returns: the digit, and the dividend's words after it.
abbrev pub Round : Type 0
Round = U256Muldiv × U256Muldiv × ℕ

-- An estimate from the top words that is more than the quotient.
abbrev pub Overestimates : Tops → (w v : ℕ) → Type 0
Overestimates t w v = (q : ℕ) × Within t q × (w < q * v)

-- The words of a remainder: their number, and that they are words.
module _ {T : Type 0} (number : T → ℕ) (Words : T → Type 0) where
  -- A round that returns, with the digit and the remainder of a division of `w` by `v`.
  abbrev pub Leaves : (w v : ℕ) (result : Result Round) (expected : ℕ → T → Round) → Type 0
  Leaves w v result expected =
      (digit : ℕ) × (rest : T) × (result ≡ ok (expected digit rest))
      × IsDivided w v digit (number rest)
      × Words rest

  keeps_or_lowers :
      (w v head q k carry : ℕ) (s a : T) (result : Result Round) (expected : ℕ → T → ℕ → Round)
      → Corrected w v head q (number s) k (number a) carry
      → Words s
      → Words a
      → (ltb head k ≡ false → result ≡ ok (expected (lo q) s (lo (sub_u128 head k))))
      → (ltb head k ≡ true
          → result
            ≡ ok (expected (lo (sub_u128 q 1)) a (lo (add_u128 (lo (sub_u128 head k)) carry))))
      → Leaves w v result λ digit rest. expected digit rest 0
  keeps_or_lowers w v head q k carry s a result expected (inl (test, none, divided)) hs ha f g =
      let e = f test ∙ ap (λ z. ok (expected (lo q) s z)) none in (lo q, s, e, divided, hs)
  keeps_or_lowers w v head q k carry s a result expected (inr (test, none, over, divided)) hs ha f
        g =
      let e = g test ∙ ap (λ z. ok (expected (lo (sub_u128 q 1)) a z)) none in
      (lo (sub_u128 q 1), a, e, divided, ha)

  -- With the head in the carry space a digit that has to be lowered panics: the estimate fits the
  -- top words, and is too large for the whole numbers.
  keeps_or_panics :
      (t : Tops) (w v head q k carry : ℕ) (s a : T) (result : Result Round)
      (expected : ℕ → T → ℕ → Round)
      → Corrected w v head q (number s) k (number a) carry
      → Words s
      → Within t q
      → (ltb head k ≡ false → result ≡ ok (expected (lo q) s (lo (sub_u128 head k))))
      → (ltb head k ≡ true → result ≡ panic)
      → Leaves w v result (λ digit rest. expected digit rest 0)
        ⊎ (result ≡ panic × Overestimates t w v)
  keeps_or_panics t w v head q k carry s a result expected (inl (test, none, divided)) hs within f
        g =
      let e = f test ∙ ap (λ z. ok (expected (lo q) s z)) none in inl (lo q, s, e, divided, hs)
  keeps_or_panics t w v head q k carry s a result expected (inr (test, none, over, divided)) hs
        within f g =
      inr (g test, (q, within, over))

abbrev pub number_2 : ℕ × ℕ → ℕ
number_2 (a, b) = two_words a b

abbrev pub number_3 : ℕ × ℕ × ℕ → ℕ
number_3 (a, b, c) = three_words a b c

abbrev pub number_4 : ℕ × ℕ × ℕ × ℕ → ℕ
number_4 (a, b, c, d) = four_words a b c d

-- With two words the estimate is exact.
two_words_suffice :
    (x0 x1 x2 y0 y1 q : ℕ)
    → Words2 (x0, x1)
    → Words2 (y0, y1)
    → q < u64_mod
    → Within (tops y1 y0 x2 x1 x0) q
    → x2 < (subtract_2 q x0 x1 y0 y1).2
    → ⊥
two_words_suffice x0 x1 x2 y0 y1 q (h0, h1) (g0, g1) hq within lt =
    let (row, a, b) = subtract_2-Subtracts q x0 x1 y0 y1 hq h0 h1 g0 g1 in
    let product = times_word q y0 y1 in omega (arith, row, product, within)

pub div_loop-0_2 :
    (x0 x1 x2 z0 c y0 y1 : ℕ) (quotient : U256Muldiv)
    → Words2 (x0, x1)
    → Words2 (y0, y1)
    → 2 ^ 63 ≤ y1
    → two_words x0 x1 + 2 ^ 128 * x2 < u64_mod * (two_words y0 y1)
    → Leaves number_2 Words2
        (two_words x0 x1 + 2 ^ 128 * x2)
        (two_words y0 y1)
        (div_loop 0 2 (items x0 x1 x2 z0) c (items y0 y1 0 0) quotient)
        (λ digit rest. (record quotient { item_0 = digit }, items rest.0 rest.1 0 z0, c))
unfolding div_loop subtract_row add_row add_back get_word update_word first_estimate first_rest
div_loop-0_2 x0 x1 x2 z0 c y0 y1 quotient hx hy top small =
    let (q, found, hq, within, (corrected, hs, ha)) = corrected_2 x0 x1 x2 y0 y1 hx hy top small in
    let s = subtract_2 q x0 x1 y0 y1 in
    let a = restore_2 s.0 s.1 y0 y1 in
    keeps_or_lowers number_2 Words2 (two_words x0 x1 + 2 ^ 128 * x2) (two_words y0 y1) x2 q s.2 a.2
      (s.0, s.1) (a.0, a.1) (div_loop 0 2 (items x0 x1 x2 z0) c (items y0 y1 0 0) quotient)
      (λ digit rest head. (record quotient { item_0 = digit }, items rest.0 rest.1 head z0, c))
      corrected hs ha (λ e. then_returns _ _ (ap unwrap found) (chosen_else _ _ _ _ e))
      λ e. then_returns _ _ (ap unwrap found) (chosen_then _ _ _ _ e)

pub div_loop-1_2 :
    (x0 x1 x2 z0 c y0 y1 : ℕ) (quotient : U256Muldiv)
    → Words2 (x0, x1)
    → Words2 (y0, y1)
    → 2 ^ 63 ≤ y1
    → two_words x0 x1 + 2 ^ 128 * x2 < u64_mod * (two_words y0 y1)
    → Leaves number_2 Words2
        (two_words x0 x1 + 2 ^ 128 * x2)
        (two_words y0 y1)
        (div_loop 1 2 (items z0 x0 x1 x2) c (items y0 y1 0 0) quotient)
        (λ digit rest. (record quotient { item_1 = digit }, items z0 rest.0 rest.1 0, c))
unfolding div_loop subtract_row add_row add_back get_word update_word first_estimate first_rest
div_loop-1_2 x0 x1 x2 z0 c y0 y1 quotient hx hy top small =
    let (q, found, hq, within, (corrected, hs, ha)) = corrected_2 x0 x1 x2 y0 y1 hx hy top small in
    let s = subtract_2 q x0 x1 y0 y1 in
    let a = restore_2 s.0 s.1 y0 y1 in
    keeps_or_lowers number_2 Words2 (two_words x0 x1 + 2 ^ 128 * x2) (two_words y0 y1) x2 q s.2 a.2
      (s.0, s.1) (a.0, a.1) (div_loop 1 2 (items z0 x0 x1 x2) c (items y0 y1 0 0) quotient)
      (λ digit rest head. (record quotient { item_1 = digit }, items z0 rest.0 rest.1 head, c))
      corrected hs ha (λ e. then_returns _ _ (ap unwrap found) (chosen_else _ _ _ _ e))
      λ e. then_returns _ _ (ap unwrap found) (chosen_then _ _ _ _ e)

pub div_loop-0_3 :
    (x0 x1 x2 x3 c y0 y1 y2 : ℕ) (quotient : U256Muldiv)
    → Words3 (x0, x1, x2)
    → Words3 (y0, y1, y2)
    → 2 ^ 63 ≤ y2
    → three_words x0 x1 x2 + 2 ^ 192 * x3 < u64_mod * (three_words y0 y1 y2)
    → Leaves number_3 Words3
        (three_words x0 x1 x2 + 2 ^ 192 * x3)
        (three_words y0 y1 y2)
        (div_loop 0 3 (items x0 x1 x2 x3) c (items y0 y1 y2 0) quotient)
        (λ digit rest. (record quotient { item_0 = digit }, items rest.0 rest.1 rest.2 0, c))
unfolding div_loop subtract_row add_row add_back get_word update_word first_estimate first_rest
div_loop-0_3 x0 x1 x2 x3 c y0 y1 y2 quotient hx hy top small =
    let (q, found, hq, within, (corrected, hs, ha)) =
      corrected_3 x0 x1 x2 x3 y0 y1 y2 hx hy top small in
    let s = subtract_3 q x0 x1 x2 y0 y1 y2 in
    let a = restore_3 s.0 s.1 s.2 y0 y1 y2 in
    keeps_or_lowers number_3 Words3 (three_words x0 x1 x2 + 2 ^ 192 * x3) (three_words y0 y1 y2) x3
      q s.3 a.3 (s.0, s.1, s.2) (a.0, a.1, a.2)
      (div_loop 0 3 (items x0 x1 x2 x3) c (items y0 y1 y2 0) quotient)
      (λ digit rest head. (record quotient { item_0 = digit }, items rest.0 rest.1 rest.2 head, c))
      corrected hs ha (λ e. then_returns _ _ (ap unwrap found) (chosen_else _ _ _ _ e))
      λ e. then_returns _ _ (ap unwrap found) (chosen_then _ _ _ _ e)

pub div_loop-2_2 :
    (x0 x1 x2 z0 z1 y0 y1 : ℕ) (quotient : U256Muldiv)
    → Words2 (x0, x1)
    → Words2 (y0, y1)
    → 2 ^ 63 ≤ y1
    → two_words x0 x1 + 2 ^ 128 * x2 < u64_mod * (two_words y0 y1)
    → Leaves number_2 Words2
        (two_words x0 x1 + 2 ^ 128 * x2)
        (two_words y0 y1)
        (div_loop 2 2 (items z0 z1 x0 x1) x2 (items y0 y1 0 0) quotient)
        (λ digit rest. (record quotient { item_2 = digit }, items z0 z1 rest.0 rest.1, 0))
unfolding div_loop subtract_row add_row add_back get_word update_word first_estimate first_rest
div_loop-2_2 x0 x1 x2 z0 z1 y0 y1 quotient hx hy top small =
    let (q, found, hq, within, (corrected, hs, ha)) = corrected_2 x0 x1 x2 y0 y1 hx hy top small in
    let s = subtract_2 q x0 x1 y0 y1 in
    let a = restore_2 s.0 s.1 y0 y1 in
    keeps_or_lowers number_2 Words2 (two_words x0 x1 + 2 ^ 128 * x2) (two_words y0 y1) x2 q s.2 a.2
      (s.0, s.1) (a.0, a.1) (div_loop 2 2 (items z0 z1 x0 x1) x2 (items y0 y1 0 0) quotient)
      (λ digit rest head. (record quotient { item_2 = digit }, items z0 z1 rest.0 rest.1, head))
      corrected hs ha (λ e. then_returns _ _ (ap unwrap found) (chosen_else _ _ _ _ e))
      λ e. absurd (two_words_suffice x0 x1 x2 y0 y1 q hx hy hq within (ltb→lt _ _ e))

pub div_loop-1_3 :
    (x0 x1 x2 x3 z0 y0 y1 y2 : ℕ) (quotient : U256Muldiv)
    → Words3 (x0, x1, x2)
    → Words3 (y0, y1, y2)
    → 2 ^ 63 ≤ y2
    → three_words x0 x1 x2 + 2 ^ 192 * x3 < u64_mod * (three_words y0 y1 y2)
    → Leaves number_3 Words3
        (three_words x0 x1 x2 + 2 ^ 192 * x3)
        (three_words y0 y1 y2)
        (div_loop 1 3 (items z0 x0 x1 x2) x3 (items y0 y1 y2 0) quotient)
        (λ digit rest. (record quotient { item_1 = digit }, items z0 rest.0 rest.1 rest.2, 0))
      ⊎ (div_loop 1 3 (items z0 x0 x1 x2) x3 (items y0 y1 y2 0) quotient ≡ panic
          × Overestimates
              (tops y2 y1 x3 x2 x1)
              (three_words x0 x1 x2 + 2 ^ 192 * x3)
              (three_words y0 y1 y2))
unfolding div_loop subtract_row add_row add_back get_word update_word first_estimate first_rest
div_loop-1_3 x0 x1 x2 x3 z0 y0 y1 y2 quotient hx hy top small =
    let (q, found, hq, within, (corrected, hs, ha)) =
      corrected_3 x0 x1 x2 x3 y0 y1 y2 hx hy top small in
    let s = subtract_3 q x0 x1 x2 y0 y1 y2 in
    let a = restore_3 s.0 s.1 s.2 y0 y1 y2 in
    keeps_or_panics number_3 Words3 (tops y2 y1 x3 x2 x1) (three_words x0 x1 x2 + 2 ^ 192 * x3)
      (three_words y0 y1 y2) x3 q s.3 a.3 (s.0, s.1, s.2) (a.0, a.1, a.2)
      (div_loop 1 3 (items z0 x0 x1 x2) x3 (items y0 y1 y2 0) quotient)
      (λ digit rest head. (record quotient { item_1 = digit }, items z0 rest.0 rest.1 rest.2, head))
      corrected hs within (λ e. then_returns _ _ (ap unwrap found) (chosen_else _ _ _ _ e))
      λ e. then_returns _ _ (ap unwrap found) (chosen_then _ _ _ _ e)

pub div_loop-0_4 :
    (x0 x1 x2 x3 x4 y0 y1 y2 y3 : ℕ) (quotient : U256Muldiv)
    → Words4 (x0, x1, x2, x3)
    → Words4 (y0, y1, y2, y3)
    → 2 ^ 63 ≤ y3
    → four_words x0 x1 x2 x3 + 2 ^ 256 * x4 < u64_mod * (four_words y0 y1 y2 y3)
    → Leaves number_4 Words4
        (four_words x0 x1 x2 x3 + 2 ^ 256 * x4)
        (four_words y0 y1 y2 y3)
        (div_loop 0 4 (items x0 x1 x2 x3) x4 (items y0 y1 y2 y3) quotient)
        (λ digit rest. (record quotient { item_0 = digit }, items rest.0 rest.1 rest.2 rest.3, 0))
      ⊎ (div_loop 0 4 (items x0 x1 x2 x3) x4 (items y0 y1 y2 y3) quotient ≡ panic
          × Overestimates
              (tops y3 y2 x4 x3 x2)
              (four_words x0 x1 x2 x3 + 2 ^ 256 * x4)
              (four_words y0 y1 y2 y3))
unfolding div_loop subtract_row add_row add_back get_word update_word first_estimate first_rest
div_loop-0_4 x0 x1 x2 x3 x4 y0 y1 y2 y3 quotient hx hy top small =
    let (q, found, hq, within, (corrected, hs, ha)) =
      corrected_4 x0 x1 x2 x3 x4 y0 y1 y2 y3 hx hy top small in
    let s = subtract_4 q x0 x1 x2 x3 y0 y1 y2 y3 in
    let a = restore_4 s.0 s.1 s.2 s.3 y0 y1 y2 y3 in
    keeps_or_panics number_4 Words4 (tops y3 y2 x4 x3 x2) (four_words x0 x1 x2 x3 + 2 ^ 256 * x4)
      (four_words y0 y1 y2 y3) x4 q s.4 a.4 (s.0, s.1, s.2, s.3) (a.0, a.1, a.2, a.3)
      (div_loop 0 4 (items x0 x1 x2 x3) x4 (items y0 y1 y2 y3) quotient)
      (λ digit rest head.
        (record quotient { item_0 = digit }, items rest.0 rest.1 rest.2 rest.3, head))
      corrected hs within (λ e. then_returns _ _ (ap unwrap found) (chosen_else _ _ _ _ e))
      λ e. then_returns _ _ (ap unwrap found) (chosen_then _ _ _ _ e)
