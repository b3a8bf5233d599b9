-- ===== src/Math/U256/Divide/Scaled.antt =====
-- The normalised divisor, and how the division of scaled numbers ends.
use elysium_dex.Base.{
  ℕ, ◌+◌, ◌-◌, ◌*◌, ◌/◌, ◌%◌, ◌^◌, ◌≤◌, ◌<◌, ◌≡◌, ◌⊎◌, refl, ap, ◌∙◌, arith, Bool, true, false,
  if◌then◌else◌,
}
use elysium_dex.Base.Words.{u64_mod}
use elysium_dex.Errors.{Result, ok}
use elysium_dex.Math.U256.{U256Muldiv, items, zero_u256, shift_left, shift_right}
use elysium_dex.Math.U256.Value.{value, AreWords}
use elysium_dex.Math.U256.Shift.{power_positive}
use elysium_dex.Math.U256.Shift.Whole.{shift-value}
use elysium_dex.Math.U256.Divide.{leading_zeros}
use elysium_dex.Math.U256.Divide.Rows.{two_words, three_words, four_words}
use elysium_dex.Math.U256.Divide.Estimate.{Tops}
use elysium_dex.Math.U256.Divide.Bounds.{divisor_top, dividend_top, top_product}
use elysium_dex.Math.U256.Divide.Steps.{Overestimates}
use elysium_dex.Math.U256.Divide.Words.{Words2, Words3, Words4}
use elysium_dex.Math.U256.Divide.Normalise.{
  leading_zeros-IsMoved, unscaled, shifted-value, moved_top,
}
use native.Mathlib.Nat.{zero-div}

-- The quotient, and the remainder where it is asked for.
abbrev pub Divides : (u v : U256Muldiv) → Bool → Result (U256Muldiv × U256Muldiv) → Type 0
Divides u v return_remainder result =
    (quotient : U256Muldiv) × (rest : U256Muldiv) × (result ≡ ok (quotient, rest))
    × AreWords quotient
    × (value quotient ≡ value u / value v)
    × AreWords rest
    × (value rest ≡ (if return_remainder then value u % value v else 0))

pub finish :
    (u v : U256Muldiv) (flag : Bool) (s : ℕ) (q r : U256Muldiv)
    (result : Result (U256Muldiv × U256Muldiv))
    → 0 < value v
    → AreWords q
    → AreWords r
    → value u * 2 ^ s ≡ value q * (value v * 2 ^ s) + value r
    → value r < value v * 2 ^ s
    → result ≡ ok (q, if flag then shift_right r s else zero_u256)
    → Divides u v flag result
finish u v true s q r result hv wq wr e small returns =
    let (quotient, rest) =
      unscaled (value u) (value v) (2 ^ s) (value q) (value r) hv (power_positive s) e small in
    let (left, words, shifted) = shift-value r s wr in
    (q, shift_right r s, returns, wq, quotient, words, shifted ∙ rest)
finish u v false s q r result hv wq wr e small returns =
    let (quotient, rest) =
      unscaled (value u) (value v) (2 ^ s) (value q) (value r) hv (power_positive s) e small in
    (
      q,
      zero_u256,
      returns,
      wq,
      quotient,
      (omega arith, omega arith, omega arith, omega arith),
      refl,
    )

-- A number that fits as the quotient of the top words, those of the divisor from `low` on and those
-- of the dividend from the third on, and is more than the quotient of the whole numbers, for the
-- words of the dividend from `skip` on.
abbrev pub Overshoots : (x v low skip : ℕ) → Type 0
Overshoots x v low skip = (q : ℕ) × (q * (v / low) ≤ x / 2 ^ 128) × (x / skip < q * v)

-- For a divisor of three words or of four, shifted until its top bit is set, and the dividend, shifted
-- with it.
abbrev pub IsOverestimated : (u v : U256Muldiv) → Type 0
IsOverestimated u v =
    (s : ℕ) × (((2 ^ 191 ≤ value v * 2 ^ s)
        × (value v * 2 ^ s < 2 ^ 192)
        × Overshoots (value u * 2 ^ s) (value v * 2 ^ s) (2 ^ 64) (2 ^ 64))
      ⊎ ((2 ^ 255 ≤ value v * 2 ^ s)
          × (value v * 2 ^ s < 2 ^ 256)
          × Overshoots (value u * 2 ^ s) (value v * 2 ^ s) (2 ^ 128) 1))

pub Overestimates-Overshoots :
    (t : Tops) (w v x y low skip : ℕ)
    → Overestimates t w v
    → y ≡ v
    → y / low ≡ divisor_top t
    → x / 2 ^ 128 ≡ dividend_top t
    → x / skip ≡ w
    → Overshoots x y low skip
Overestimates-Overshoots t w v x y low skip (q, within, over) same top top_x digit =
    let product = ap (λ z. q * z) top in
    let split = top_product t 0 0 0 q in
    let whole = ap (λ z. q * z) same in
    (q, omega (arith, product, split, top_x, within), omega (arith, whole, digit, over))

-- The normalised divisor: its words, and the shift.
abbrev pub IsDivisor2 : U256Muldiv → U256Muldiv → ℕ → Type 0
IsDivisor2 v w s =
    (s < 64)
    × (w ≡ items w.item_0 w.item_1 0 0)
    × Words2 (w.item_0, w.item_1)
    × (2 ^ 63 ≤ w.item_1)
    × (two_words w.item_0 w.item_1 ≡ value v * 2 ^ s)

pub divisor_2 :
    (v0 v1 : ℕ)
    → AreWords (items v0 v1 0 0)
    → 0 < v1
    → IsDivisor2
        (items v0 v1 0 0)
        (shift_left (items v0 v1 0 0) (leading_zeros 64 v1))
        (leading_zeros 64 v1)
divisor_2 v0 v1 (h0, h1, h2, h3) positive =
    let s = leading_zeros 64 v1 in
    let v = items v0 v1 0 0 in
    let w = shift_left v s in
    let (moved, rest) = leading_zeros-IsMoved 64 v1 h1 in
    let (high, hs) = rest positive in
    let (words, e) = shifted-value v s (h0, h1, h2, h3) hs in
    let (below, above) = moved_top u64_mod v0 v1 s (omega arith) h1 hs moved high in
    let gone : 0 / 2 ^ (64 - s) ≡ 0 = zero-div (2 ^ (64 - s)) in
    let same : value v ≡ v0 + u64_mod * v1 = omega arith in
    let whole : value w ≡ value v * 2 ^ s =
      omega (arith, e, gone, ap (λ y. y * 2 ^ s) same, below) in
    let large : u64_mod * 2 ^ 63 ≤ value w =
      omega (arith, whole, ap (λ y. y * 2 ^ s) same, above) in
    let less : value w < u64_mod * u64_mod =
      omega (arith, whole, ap (λ y. y * 2 ^ s) same, below) in
    let top_3 : w.item_3 ≡ 0 = omega arith in
    let top_2 : w.item_2 ≡ 0 = omega arith in
    (
      hs,
      ap (λ d. items w.item_0 w.item_1 w.item_2 d) top_3
          ∙ ap (λ c. items w.item_0 w.item_1 c 0) top_2,
      (words.0, words.1),
      omega arith,
      omega (arith, whole),
    )

abbrev pub IsDivisor3 : U256Muldiv → U256Muldiv → ℕ → Type 0
IsDivisor3 v w s =
    (s < 64)
    × (w ≡ items w.item_0 w.item_1 w.item_2 0)
    × Words3 (w.item_0, w.item_1, w.item_2)
    × (2 ^ 63 ≤ w.item_2)
    × (three_words w.item_0 w.item_1 w.item_2 ≡ value v * 2 ^ s)

pub divisor_3 :
    (v0 v1 v2 : ℕ)
    → AreWords (items v0 v1 v2 0)
    → 0 < v2
    → IsDivisor3
        (items v0 v1 v2 0)
        (shift_left (items v0 v1 v2 0) (leading_zeros 64 v2))
        (leading_zeros 64 v2)
divisor_3 v0 v1 v2 (h0, h1, h2, h3) positive =
    let s = leading_zeros 64 v2 in
    let v = items v0 v1 v2 0 in
    let w = shift_left v s in
    let (moved, rest) = leading_zeros-IsMoved 64 v2 h2 in
    let (high, hs) = rest positive in
    let (words, e) = shifted-value v s (h0, h1, h2, h3) hs in
    let (below, above) =
      moved_top (2 ^ 128) (two_words v0 v1) v2 s (omega arith) h2 hs moved high in
    let gone : 0 / 2 ^ (64 - s) ≡ 0 = zero-div (2 ^ (64 - s)) in
    let same : value v ≡ (two_words v0 v1) + (2 ^ 128) * v2 = omega arith in
    let whole : value w ≡ value v * 2 ^ s =
      omega (arith, e, gone, ap (λ y. y * 2 ^ s) same, below) in
    let large : (2 ^ 128) * 2 ^ 63 ≤ value w =
      omega (arith, whole, ap (λ y. y * 2 ^ s) same, above) in
    let less : value w < (2 ^ 128) * u64_mod =
      omega (arith, whole, ap (λ y. y * 2 ^ s) same, below) in
    let top_3 : w.item_3 ≡ 0 = omega arith in
    (
      hs,
      ap (λ d. items w.item_0 w.item_1 w.item_2 d) top_3,
      (words.0, words.1, words.2),
      omega arith,
      omega (arith, whole),
    )

abbrev pub IsDivisor4 : U256Muldiv → U256Muldiv → ℕ → Type 0
IsDivisor4 v w s =
    (s < 64)
    × (w ≡ items w.item_0 w.item_1 w.item_2 w.item_3)
    × Words4 (w.item_0, w.item_1, w.item_2, w.item_3)
    × (2 ^ 63 ≤ w.item_3)
    × (four_words w.item_0 w.item_1 w.item_2 w.item_3 ≡ value v * 2 ^ s)

pub divisor_4 :
    (v0 v1 v2 v3 : ℕ)
    → AreWords (items v0 v1 v2 v3)
    → 0 < v3
    → IsDivisor4
        (items v0 v1 v2 v3)
        (shift_left (items v0 v1 v2 v3) (leading_zeros 64 v3))
        (leading_zeros 64 v3)
divisor_4 v0 v1 v2 v3 (h0, h1, h2, h3) positive =
    let s = leading_zeros 64 v3 in
    let v = items v0 v1 v2 v3 in
    let w = shift_left v s in
    let (moved, rest) = leading_zeros-IsMoved 64 v3 h3 in
    let (high, hs) = rest positive in
    let (words, e) = shifted-value v s (h0, h1, h2, h3) hs in
    let (below, above) =
      moved_top (2 ^ 192) (three_words v0 v1 v2) v3 s (omega arith) h3 hs moved high in
    let same : value v ≡ (three_words v0 v1 v2) + (2 ^ 192) * v3 = omega arith in
    let whole : value w ≡ value v * 2 ^ s = omega (arith, e, ap (λ y. y * 2 ^ s) same, below) in
    let large : (2 ^ 192) * 2 ^ 63 ≤ value w =
      omega (arith, whole, ap (λ y. y * 2 ^ s) same, above) in
    let less : value w < (2 ^ 192) * u64_mod =
      omega (arith, whole, ap (λ y. y * 2 ^ s) same, below) in
    (hs, refl, (words.0, words.1, words.2, words.3), omega arith, omega (arith, whole))
