-- ===== src/Math/U256/Divide/Normalise.antt =====
-- The shift that gives the divisor its high bit, and what it does to the quotient and the remainder.
use elysium_dex.Base.{
  ℕ, zero, suc, ◌+◌, ◌-◌, ◌*◌, ◌/◌, ◌%◌, ◌^◌, ◌≤◌, ◌<◌, ◌≡◌, refl, subst, sym, ap, ◌∙◌, arith, ltb,
  leb, ltb→lt, by_branch, if◌then◌else◌,
}
use elysium_dex.Base.Words.{u64_mod}
use elysium_dex.Math.U256.{U256Muldiv, word_shifts_left, shift_left, bit_shift_left}
use elysium_dex.Math.U256.Value.{value, AreWords, u256_mod}
use elysium_dex.Math.U256.Shift.{powers_of_word, power_positive, bit_shift_left-value}
use elysium_dex.Math.U256.Divide.{leading_zeros}
use native.Mathlib.Nat.{
  mul-add, mul_assoc, mul_comm, add-mul, suc-mul, pow-suc, pow-le-pow_right, mul-le-mul_left,
  mul-le-mul_right, lt_of_mul-lt-mul_right, mul-add-div_right, div-eq_of_lt, div-add-mod, mod-lt,
  mul-lt-mul_of_pos_right,
}

-- A word moved up until its highest bit is set.
abbrev IsMoved : (w x s : ℕ) → Type 0
IsMoved w x s = (x * 2 ^ s < 2 ^ w) × (0 < x → (2 ^ w ≤ 2 * (x * 2 ^ s)) × (s < w))

pub leading_zeros-IsMoved : (w x : ℕ) → x < 2 ^ w → IsMoved w x (leading_zeros w x)
unfolding leading_zeros
leading_zeros-IsMoved zero x h = (omega arith, λ p. absurd (omega arith))
leading_zeros-IsMoved (suc w) x h =
    by_branch (IsMoved (suc w) x) (ltb x (2 ^ w))
      (λ below.
        let (a, b) = leading_zeros-IsMoved w x (ltb→lt _ _ below) in
        let s = leading_zeros w x in
        let double : x * 2 ^ suc s ≡ x * 2 ^ s * 2 =
          ap (λ y. x * y) (pow-suc 2 s) ∙ sym (mul_assoc x (2 ^ s) 2) in
        let power = pow-suc 2 w in
        (
          omega (arith, double, power),
          λ p. let (c, d) = b p in (omega (arith, double, power), omega arith),
        ))
      λ above.
        let power = pow-suc 2 w in
        let large : 2 ^ w ≤ x = grind arith in
        (omega arith, λ p. (omega (arith, power), omega arith))

equal_quotient : (m q r q' r' : ℕ) → r < m → r' < m → q * m + r ≡ q' * m + r' → (q ≡ q') × (r ≡ r')
equal_quotient m q r q' r' h h' e =
    let positive : 0 < m = omega arith in
    let left : (q * m + r) / m ≡ q =
      mul-add-div_right positive q r ∙ omega (arith, div-eq_of_lt h) in
    let right : (q' * m + r') / m ≡ q' =
      mul-add-div_right positive q' r' ∙ omega (arith, div-eq_of_lt h') in
    let same : q ≡ q' = sym left ∙ ap (λ y. y / m) e ∙ right in
    (same, omega (arith, e, ap (λ y. y * m) same))

-- Scaling both numbers keeps the quotient and scales the remainder.
pub unscaled :
    (u v p q r : ℕ)
    → 0 < v
    → 0 < p
    → u * p ≡ q * (v * p) + r
    → r < v * p
    → (q ≡ u / v) × (r / p ≡ u % v)
unscaled u v p q r hv hp e h =
    let divided : u / v * v + u % v ≡ u = omega (arith, div-add-mod u v, mul_comm v (u / v)) in
    let scaled : u * p ≡ u / v * (v * p) + u % v * p =
      ap (λ y. y * p) (sym divided)
      ∙ add-mul (u / v * v) (u % v) p
      ∙ ap (λ y. y + u % v * p) (mul_assoc (u / v) v p) in
    let small : u % v * p < v * p = mul-lt-mul_of_pos_right (mod-lt u hv) hp in
    let (same, rest) = equal_quotient (v * p) q r (u / v) (u % v * p) h small (sym e ∙ scaled) in
    let back : u % v * p / p ≡ u % v =
      ap (λ y. y / p) (omega arith)
      ∙ mul-add-div_right hp (u % v) 0
      ∙ omega (arith, div-eq_of_lt hp) in
    (same, ap (λ y. y / p) rest ∙ back)

shift_left-bits : (u : U256Muldiv) (s : ℕ) → s < 64 → shift_left u s ≡ bit_shift_left u s
unfolding shift_left word_shifts_left
shift_left-bits u s h =
    by_branch (λ w. w ≡ bit_shift_left u s) (leb 256 s) (λ large. absurd (grind arith))
      λ small. ap (λ z. bit_shift_left z.0 z.1) (no_words u s h)
  where
    no_words : (u : U256Muldiv) (s : ℕ) → s < 64 → word_shifts_left 4 u s ≡ (u, s)
    no_words u s h =
        by_branch (λ w. w ≡ (u, s)) (leb 64 s) (λ large. absurd (grind arith)) λ small. refl

-- The words of a shifted number, and the bits that have left them.
pub shifted-value :
    (u : U256Muldiv) (s : ℕ)
    → AreWords u
    → s < 64
    → AreWords (shift_left u s)
      × (value (shift_left u s) + u256_mod * (u.item_3 / 2 ^ (64 - s)) ≡ value u * 2 ^ s)
shifted-value u s words h =
    subst (λ w. AreWords w × (value w + u256_mod * (u.item_3 / 2 ^ (64 - s)) ≡ value u * 2 ^ s))
      (sym (shift_left-bits u s h)) (bit_shift_left-value u s words h)

-- The bits that leave a word that is moved by less than its leading zeros: none.
pub carry_space-value :
    (top s : ℕ)
    → top < u64_mod
    → s < 64
    → (if ltb (leading_zeros 64 top) s then top / 2 ^ (64 - s) else 0) ≡ top / 2 ^ (64 - s)
carry_space-value top s h hs =
    by_branch (λ c. c ≡ top / 2 ^ (64 - s)) (ltb (leading_zeros 64 top) s) (λ below. refl)
      λ above.
        let (moved, rest) = leading_zeros-IsMoved 64 top h in
        let le : s ≤ leading_zeros 64 top = grind arith in
        let power = pow-le-pow_right {n = 2} (omega arith) le in
        let product : top * 2 ^ s < 2 ^ (64 - s) * 2 ^ s = omega (
          arith,
          mul-le-mul_left top power,
          moved,
          powers_of_word s (omega arith),
          mul_comm (2 ^ s) (2 ^ (64 - s)),
        ) in
        sym (div-eq_of_lt (lt_of_mul-lt-mul_right (2 ^ s) product))

-- A number whose top word is moved to its highest bit. `l` is the weight of the top word.
pub moved_top :
    (l low top s : ℕ)
    → low < l
    → top < u64_mod
    → s < 64
    → top * 2 ^ s < u64_mod
    → u64_mod ≤ 2 * (top * 2 ^ s)
    → ((low + l * top) * 2 ^ s < l * u64_mod) × (l * 2 ^ 63 ≤ (low + l * top) * 2 ^ s)
moved_top l low top s hl ht hs moved high =
    let p = 2 ^ s in
    let whole = powers_of_word s (omega arith) in
    let below : top < 2 ^ (64 - s) =
      lt_of_mul-lt-mul_right p (omega (arith, moved, whole, mul_comm p (2 ^ (64 - s)))) in
    let room : top * p + p ≤ u64_mod =
      omega (arith, mul-le-mul_right p below, suc-mul top p, whole, mul_comm p (2 ^ (64 - s))) in
    let split : (low + l * top) * p ≡ low * p + l * (top * p) =
      add-mul low (l * top) p ∙ ap (λ y. low * p + y) (mul_assoc l top p) in
    let low_part : low * p < l * p = mul-lt-mul_of_pos_right hl (power_positive s) in
    let scaled : l * (top * p + p) ≤ l * u64_mod = mul-le-mul_left l room in
    let spread = mul-add l (top * p) p in
    let scaled_high : l * 2 ^ 63 ≤ l * (top * p) = mul-le-mul_left l (omega (arith, high)) in
    (omega (arith, split, low_part, scaled, spread), omega (arith, split, scaled_high))
