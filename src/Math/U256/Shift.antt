-- ===== src/Math/U256/Shift.antt =====
-- The shifts of math/u256_math.rs by less than a word, on the numbers that the words stand for.
pub mod Whole
use Prim.Native.Nat.{bit_or}
use elysium_dex.Base.{
  ℕ, zero, suc, ◌+◌, ◌-◌, ◌*◌, ◌/◌, ◌%◌, ◌^◌, ◌≤◌, ◌<◌, ◌≡◌, refl, subst, sym, ap, ◌∙◌, arith, ltb,
  leb, ◌==◌,
}
use elysium_dex.Base.Bits.{bit_or-eq-add, bit_or-eq-add_low}
use elysium_dex.Base.Words.{u64_mod}
use elysium_dex.Math.U256.{
  U256Muldiv, items, funnel_left, funnel_right, shift_word_left, shift_word_right, bit_shift_left,
  bit_shift_right, word_shifts_left, word_shifts_right, shift_left, shift_right,
}
use elysium_dex.Math.U256.Value.{value, AreWords, u256_mod}
use native.Mathlib.Nat.{
  mul-add, add-mul, mul_comm, mul_assoc, mod-lt, mod-eq_of_lt, div-add-mod, div-eq_of_lt,
  div-le_self, mul-add-div, mul-add-mod_self_left, pow-succ', one-le-pow, mul-mod_right,
  mul-le-mul_left, mul-suc, mod-mod, lt_of_mul-lt-mul_left, mul-lt-mul_of_pos_left,
}

spread : (p q h l : ℕ) → (q * h + l) * p ≡ p * q * h + p * l
spread p q h l = grind arith

-- A product by `p` of a number below `p * q`: its overflow is the number's quotient by `q`, and
-- the rest is `p` times the remainder.
pub split_product :
    (p q m x : ℕ)
    → 0 < p
    → 0 < q
    → p * q ≡ m
    → x < m
    → (x * p ≡ m * (x / q) + x * p % m) × (x * p % m ≡ p * (x % q)) × (x / q < p)
split_product p q m x hp hq whole h =
    let d : q * (x / q) + x % q ≡ x = div-add-mod x q in
    let small : p * (x % q) < m =
      subst (λ y. p * (x % q) < y) whole (mul-lt-mul_of_pos_left (mod-lt x hq) hp) in
    let e : x * p ≡ m * (x / q) + p * (x % q) =
      sym (ap (λ y. y * p) d)
      ∙ spread p q (x / q) (x % q)
      ∙ ap (λ y. y * (x / q) + p * (x % q)) whole in
    let f : x * p % m ≡ p * (x % q) =
      ap (λ y. y % m) e ∙ mul-add-mod_self_left m (x / q) (p * (x % q)) ∙ mod-eq_of_lt small in
    let below : q * (x / q) < q * p = omega (arith, mul_comm p q) in
    (omega (arith, e, f), f, lt_of_mul-lt-mul_left q below)

-- A multiple of `p` and a number below `p` together.
together : (p q m l h : ℕ) → p * q ≡ m → l < q → h < p → p * l + h < m
together p q m l h whole hl hh = omega (arith, mul-le-mul_left p hl, mul-suc p l)

pub pow_split : (a b : ℕ) → 2 ^ (a + b) ≡ 2 ^ a * 2 ^ b
pow_split zero b = grind arith
pow_split (suc a) b = grind (arith, pow_split a b, pow-succ' 2 (a + b), pow-succ' 2 a)

pub powers_of_word : (s : ℕ) → s ≤ 64 → 2 ^ s * 2 ^ (64 - s) ≡ u64_mod
powers_of_word s h =
    let whole : s + (64 - s) ≡ 64 = omega arith in
    sym (pow_split s (64 - s)) ∙ ap (λ k. 2 ^ k) whole

pub power_positive : (s : ℕ) → 0 < 2 ^ s
power_positive s = one-le-pow s 2 (omega arith)

-- One word shifted left, with the bits of the word below it.
IsShiftedLeft : (s x y w : ℕ) → Type 0
IsShiftedLeft s x y w =
    (w < u64_mod)
    × (w + u64_mod * (x / 2 ^ (64 - s)) ≡ x * 2 ^ s + y / 2 ^ (64 - s))
    × (x / 2 ^ (64 - s) < 2 ^ s)

funnel_left-IsShifted :
    (s x y : ℕ) → s ≤ 64 → x < u64_mod → y < u64_mod → IsShiftedLeft s x y (funnel_left s x y)
unfolding funnel_left IsShiftedLeft
funnel_left-IsShifted s x y hs hx hy =
    let p = 2 ^ s in
    let q = 2 ^ (64 - s) in
    let m = powers_of_word s hs in
    let hp = power_positive s in
    let hq = power_positive (64 - s) in
    let (e, f, g) = split_product p q u64_mod x hp hq m hx in
    let (e1, f1, g1) = split_product p q u64_mod y hp hq m hy in
    let multiple : x * p % u64_mod % p ≡ 0 = ap (λ z. z % p) f ∙ mul-mod_right p (x % q) in
    let sum = bit_or-eq-add s (x * p % u64_mod) (y / q) multiple g1 in
    let small = together p q u64_mod (x % q) (y / q) m (mod-lt x hq) g1 in
    (omega (arith, sum, f, small), omega (arith, sum, e), g)

-- One word shifted right, with the bits of the word above it.
IsShiftedRight : (s x y w : ℕ) → Type 0
IsShiftedRight s x y w =
    (w < u64_mod) × (2 ^ s * w + x % 2 ^ s ≡ x + u64_mod * (y % 2 ^ s)) × (y % 2 ^ s < 2 ^ s)

above : (p q m l h : ℕ) → p * q ≡ m → p * (l + q * h) ≡ p * l + m * h
above p q m l h whole =
    mul-add p l (q * h) ∙ ap (λ y. p * l + y) (sym (mul_assoc p q h) ∙ ap (λ y. y * h) whole)

funnel_right-IsShifted :
    (s x y : ℕ) → s ≤ 64 → x < u64_mod → y < u64_mod → IsShiftedRight s x y (funnel_right s x y)
unfolding funnel_right IsShiftedRight
funnel_right-IsShifted s x y hs hx hy =
    let p = 2 ^ s in
    let q = 2 ^ (64 - s) in
    let m = powers_of_word s hs in
    let m' : q * p ≡ u64_mod = mul_comm q p ∙ m in
    let hp = power_positive s in
    let hq = power_positive (64 - s) in
    let (e, f, g) = split_product q p u64_mod y hq hp m' hy in
    let (e1, f1, g1) = split_product q p u64_mod x hq hp m' hx in
    let multiple : y * q % u64_mod % q ≡ 0 = ap (λ z. z % q) f ∙ mul-mod_right q (y % p) in
    let sum = bit_or-eq-add_low (64 - s) (x / p) (y * q % u64_mod) g1 multiple in
    let small = together q p u64_mod (y % p) (x / p) m' (mod-lt y hp) g1 in
    let product : p * (x / p + q * (y % p)) ≡ p * (x / p) + u64_mod * (y % p) =
      above p q u64_mod (x / p) (y % p) m in
    let total : bit_or (x / p) (y * q % u64_mod) ≡ x / p + q * (y % p) = omega (arith, sum, f) in
    (
      omega (arith, sum, f, small),
      omega (arith, div-add-mod x p, product, ap (λ w. p * w) total),
      mod-lt y hp,
    )

pub times :
    (a b c d p : ℕ) → value (items a b c d) * p ≡ value (items (a * p) (b * p) (c * p) (d * p))
times a b c d p =
    let m = u64_mod in
    add-mul a (m * (b + m * (c + m * d))) p
    ∙ grind (
      arith,
      mul_assoc m (b + m * (c + m * d)) p,
      add-mul b (m * (c + m * d)) p,
      mul_assoc m (c + m * d) p,
      add-mul c (m * d) p,
      mul_assoc m d p,
    )

-- The shift by no bits is the general one.
abbrev shifted_left : ℕ → U256Muldiv → U256Muldiv
shifted_left s u =
    items (u.item_0 * 2 ^ s % u64_mod) (funnel_left s u.item_1 u.item_0)
      (funnel_left s u.item_2 u.item_1) (funnel_left s u.item_3 u.item_2)

abbrev shifted_right : ℕ → U256Muldiv → U256Muldiv
shifted_right s u =
    items (funnel_right s u.item_0 u.item_1) (funnel_right s u.item_1 u.item_2)
      (funnel_right s u.item_2 u.item_3) (u.item_3 / 2 ^ s)

shifted_left-value :
    (u : U256Muldiv) (s : ℕ)
    → AreWords u
    → s ≤ 64
    → AreWords (shifted_left s u)
      × (value (shifted_left s u) + u256_mod * (u.item_3 / 2 ^ (64 - s)) ≡ value u * 2 ^ s)
unfolding IsShiftedLeft
shifted_left-value u s (h0, h1, h2, h3) hs =
    let q = 2 ^ (64 - s) in
    let (e0, f0, g0) =
      split_product (2 ^ s) q u64_mod u.item_0 (power_positive s) (power_positive (64 - s))
        (powers_of_word s hs) h0 in
    let (a1, b1, c1) = funnel_left-IsShifted s u.item_1 u.item_0 hs h1 h0 in
    let (a2, b2, c2) = funnel_left-IsShifted s u.item_2 u.item_1 hs h2 h1 in
    let (a3, b3, c3) = funnel_left-IsShifted s u.item_3 u.item_2 hs h3 h2 in
    let whole = times u.item_0 u.item_1 u.item_2 u.item_3 (2 ^ s) in
    ((omega arith, a1, a2, a3), omega (arith, e0, b1, b2, b3, whole))

shifted_right-value :
    (u : U256Muldiv) (s : ℕ)
    → AreWords u
    → s ≤ 64
    → AreWords (shifted_right s u) × (value (shifted_right s u) ≡ value u / 2 ^ s)
unfolding IsShiftedRight
shifted_right-value u s (h0, h1, h2, h3) hs =
    let p = 2 ^ s in
    let v = shifted_right s u in
    let (a0, b0, c0) = funnel_right-IsShifted s u.item_0 u.item_1 hs h0 h1 in
    let (a1, b1, c1) = funnel_right-IsShifted s u.item_1 u.item_2 hs h1 h2 in
    let (a2, b2, c2) = funnel_right-IsShifted s u.item_2 u.item_3 hs h2 h3 in
    let top = div-add-mod u.item_3 p in
    let small = div-le_self u.item_3 p in
    let whole : value v * p
        ≡ value (items (v.item_0 * p) (v.item_1 * p) (v.item_2 * p) (v.item_3 * p)) =
      times v.item_0 v.item_1 v.item_2 v.item_3 p in
    let sum : p * value v + u.item_0 % p ≡ value u = omega (
      arith,
      b0,
      b1,
      b2,
      top,
      whole,
      mul_comm p (value v),
      mul_comm p v.item_0,
      mul_comm p v.item_1,
      mul_comm p v.item_2,
      mul_comm p v.item_3,
    ) in
    let quotient : value u / p ≡ value v =
      ap (λ y. y / p) (sym sum)
      ∙ mul-add-div (power_positive s) (value v) (u.item_0 % p)
      ∙ omega (arith, div-eq_of_lt (mod-lt u.item_0 (power_positive s))) in
    ((a0, a1, a2, omega arith), sym quotient)

pub bit_shift_left-value :
    (u : U256Muldiv) (s : ℕ)
    → AreWords u
    → s < 64
    → AreWords (bit_shift_left u s)
      × (value (bit_shift_left u s) + u256_mod * (u.item_3 / 2 ^ (64 - s)) ≡ value u * 2 ^ s)
unfolding bit_shift_left
bit_shift_left-value u zero (h0, h1, h2, h3) h = ((h0, h1, h2, h3), omega arith)
bit_shift_left-value u (suc r) words h =
    let same : bit_shift_left u (suc r) ≡ shifted_left (suc r) u = ground arith in
    subst
      (λ v. AreWords v × (value v + u256_mod * (u.item_3 / 2 ^ (64 - suc r)) ≡ value u * 2 ^ suc r))
      (sym same) (shifted_left-value u (suc r) words (omega arith))

pub bit_shift_right-value :
    (u : U256Muldiv) (s : ℕ)
    → AreWords u
    → s < 64
    → AreWords (bit_shift_right u s) × (value (bit_shift_right u s) ≡ value u / 2 ^ s)
unfolding bit_shift_right
bit_shift_right-value u zero words h = (words, omega arith)
bit_shift_right-value u (suc r) words h =
    let same : bit_shift_right u (suc r) ≡ shifted_right (suc r) u = ground arith in
    subst (λ v. AreWords v × (value v ≡ value u / 2 ^ suc r)) (sym same)
      (shifted_right-value u (suc r) words (omega arith))
