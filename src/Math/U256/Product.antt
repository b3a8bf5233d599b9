-- ===== src/Math/U256/Product.antt =====
-- `mul_u256` against the product of numbers.
use elysium_dex.Base.{ℕ, ◌+◌, ◌-◌, ◌*◌, ◌/◌, ◌%◌, ◌^◌, ◌≤◌, ◌<◌, ◌≡◌, refl, ◌∙◌, arith}
use elysium_dex.Base.Bits.{bit_and-eq-mod, bit_or-eq-add}
use elysium_dex.Base.Words.{u64_mod, u128_mod, add_u128, mul_u128}
use elysium_dex.Math.U256.{U256Muldiv, new, lo, hi, lo_u128, hi_u128, hi_lo}
use elysium_dex.Math.U256.Multiply.{mul_u256}
use elysium_dex.Math.U256.Value.{value, AreWords, lo-eq-mod}
use native.Mathlib.Nat.{mul-le-mul, mod-eq_of_lt}

pub lo_u128-eq-mod : (x : ℕ) → lo_u128 x ≡ x % u64_mod
unfolding lo_u128
lo_u128-eq-mod x = bit_and-eq-mod 64 x 0xffff_ffff_ffff_ffff refl

-- A product of two words fits into two words.
pub word_product : (a b : ℕ) → a < u64_mod → b < u64_mod → a * b ≤ (2 ^ 64 - 1) * (2 ^ 64 - 1)
word_product a b p q =
    mul-le-mul {n₁ = a} {m₁ = b} {n₂ = 2 ^ 64 - 1} {m₂ = 2 ^ 64 - 1} (omega arith) (omega arith)

pub new-value :
    (h l : ℕ)
    → h < u128_mod
    → l < u128_mod
    → AreWords (new h l) × (value (new h l) ≡ l + u128_mod * h)
unfolding new hi
new-value h l p q =
    let low = lo-eq-mod l in
    let high = lo-eq-mod h in ((omega arith, omega arith, omega arith, omega arith), omega arith)

pub hi_lo-value : (h l : ℕ) → h < u64_mod → l < u64_mod → hi_lo h l ≡ h * 2 ^ 64 + l
unfolding hi_lo
hi_lo-value h l p q =
    omega (arith, bit_or-eq-add 64 (h * 2 ^ 64 % u128_mod) l (omega arith) (omega arith))

-- The last steps of `mul_u256`, on the four products of words.
combine : (c_0 a_1 b_0 d_1 : ℕ) → U256Muldiv
combine c_0 a_1 b_0 d_1 =
    let c_1 = add_u128 (add_u128 (hi_u128 c_0) (lo_u128 a_1)) (lo_u128 b_0) in
    let high = add_u128 (add_u128 (add_u128 d_1 (hi_u128 c_1)) (hi_u128 a_1)) (hi_u128 b_0) in
    new high (hi_lo (lo c_1) (lo c_0))

abbrev largest : ℕ
largest = (2 ^ 64 - 1) * (2 ^ 64 - 1)

combine-value :
    (c_0 a_1 b_0 d_1 : ℕ)
    → c_0 ≤ largest
    → a_1 ≤ largest
    → b_0 ≤ largest
    → d_1 ≤ largest
    → AreWords (combine c_0 a_1 b_0 d_1)
      × (value (combine c_0 a_1 b_0 d_1) ≡ c_0 + 2 ^ 64 * (a_1 + b_0) + 2 ^ 128 * d_1)
unfolding combine hi_u128
combine-value c_0 a_1 b_0 d_1 p q r s =
    let c_1 = add_u128 (add_u128 (c_0 / 2 ^ 64) (lo_u128 a_1)) (lo_u128 b_0) in
    let low_a = lo_u128-eq-mod a_1 in
    let low_b = lo_u128-eq-mod b_0 in
    let low_c = lo-eq-mod c_1 in
    let low_0 = lo-eq-mod c_0 in
    let low = hi_lo-value (lo c_1) (lo c_0) (omega arith) (omega arith) in
    let high = add_u128 (add_u128 (add_u128 d_1 (c_1 / 2 ^ 64)) (a_1 / 2 ^ 64)) (b_0 / 2 ^ 64) in
    let (words, made) = new-value high (hi_lo (lo c_1) (lo c_0)) (omega arith) (omega arith) in
    (words, omega arith)

mul_u128_exact : (a b : ℕ) → a < u64_mod → b < u64_mod → mul_u128 a b ≡ a * b
mul_u128_exact a b p q = mod-eq_of_lt (omega (arith, word_product a b p q))

expand : (t a b c d : ℕ) → a * c + t * (a * d + b * c) + t * t * (b * d) ≡ (a + t * b) * (c + t * d)
expand t a b c d = grind arith

words_of_u128 :
    (v : ℕ)
    → v < u128_mod
    → (lo_u128 v < u64_mod) × (hi_u128 v < u64_mod) × (lo_u128 v + 2 ^ 64 * hi_u128 v ≡ v)
unfolding hi_u128
words_of_u128 v p = let low = lo_u128-eq-mod v in (omega arith, omega arith, omega arith)

-- The product of two `u128` is exact: its four words stand for the product of the numbers.
pub mul_u256-value :
    (v n : ℕ)
    → v < u128_mod
    → n < u128_mod
    → AreWords (mul_u256 v n) × (value (mul_u256 v n) ≡ v * n)
unfolding mul_u256 combine
mul_u256-value v n p q =
    let (a, b, same_v) = words_of_u128 v p in
    let (c, d, same_n) = words_of_u128 n q in
    let ac = mul_u128_exact (lo_u128 v) (lo_u128 n) a c in
    let ad = mul_u128_exact (lo_u128 v) (hi_u128 n) a d in
    let bc = mul_u128_exact (hi_u128 v) (lo_u128 n) b c in
    let bd = mul_u128_exact (hi_u128 v) (hi_u128 n) b d in
    let (words, made) =
      combine-value (mul_u128 (lo_u128 v) (lo_u128 n)) (mul_u128 (lo_u128 v) (hi_u128 n))
        (mul_u128 (hi_u128 v) (lo_u128 n)) (mul_u128 (hi_u128 v) (hi_u128 n))
        (omega (arith, ac, word_product (lo_u128 v) (lo_u128 n) a c))
        (omega (arith, ad, word_product (lo_u128 v) (hi_u128 n) a d))
        (omega (arith, bc, word_product (hi_u128 v) (lo_u128 n) b c))
        (omega (arith, bd, word_product (hi_u128 v) (hi_u128 n) b d)) in
    let exact = expand (2 ^ 64) (lo_u128 v) (hi_u128 v) (lo_u128 n) (hi_u128 n) in
    (words, made ∙ rw (ac, ad, bc, bd) (exact ∙ rw (same_v, same_n) refl))
