-- ===== src/Math/U256/Divide/Short.antt =====
-- The cases of `div` that do not need the long division: two words by two, and a divisor of one word.
use elysium_dex.Base.{
  ℕ, ◌+◌, ◌*◌, ◌/◌, ◌%◌, ◌^◌, ◌≤◌, ◌<◌, ◌≡◌, refl, ap, arith, Bool, true, false, if◌then◌else◌,
}
use elysium_dex.Base.Bits.{bit_or-eq-add}
use elysium_dex.Base.Words.{u64_mod, u128_mod, sub_u128, mul_u128}
use elysium_dex.Errors.{Result, ok, unwrap_ok}
use elysium_dex.Math.U256.{
  U256Muldiv, items, zero_u256, new, lo, hi_lo, num_words, get_word, update_word, try_into_u128,
}
use elysium_dex.Math.U256.Value.{value, AreWords, lo-eq-mod}
use elysium_dex.Math.U256.Product.{hi_lo-value, new-value}
use elysium_dex.Math.U256.Shift.{times}
use elysium_dex.Math.U256.Divide.{short_division, div_u128, div_word}
use elysium_dex.Math.U256.Divide.Normalise.{unscaled}
use elysium_dex.Math.U256.Divide.Steps.{then_returns}
use elysium_dex.Math.U256.Divide.Scaled.{Divides}
use native.Mathlib.Nat.{mul_comm, div-le_self, div-add-mod, mod-lt, mul-one, lt_of_mul-lt-mul_right}

-- One round: the word of the quotient, and what is left.
abbrev short_word : (d k x : ℕ) → ℕ × ℕ
short_word d k x = let d1 = hi_lo (lo k) x in (lo (d1 / d), sub_u128 d1 (mul_u128 d (d1 / d)))

short_word-value :
    (d k x : ℕ)
    → k < d
    → d < u64_mod
    → x < u64_mod
    → ((short_word d k x).0 * d + (short_word d k x).1 ≡ x + u64_mod * k)
      × ((short_word d k x).1 < d)
      × ((short_word d k x).0 < u64_mod)
short_word-value d k x hk hd hx =
    let low = lo-eq-mod k in
    let y = hi_lo (lo k) x in
    let joined = hi_lo-value (lo k) x (omega arith) hx in
    let divided = div-add-mod y d in
    let positive : 0 < d = omega arith in
    let small : y % d < d = mod-lt y positive in
    let below : y / d * d < u64_mod * d = omega (arith, joined, low, divided, mul_comm d (y / d)) in
    let word : y / d < u64_mod = lt_of_mul-lt-mul_right d below in
    let same : lo (y / d) ≡ y / d = omega (arith, lo-eq-mod (y / d)) in
    let product = ap (λ z. z * d) same in
    let swap = mul_comm d (y / d) in
    let rest : sub_u128 y (mul_u128 d (y / d)) ≡ y % d = omega (arith, joined, low, divided) in
    (
      omega (arith, rest, product, swap, divided, joined, low),
      omega (arith, rest, small),
      omega (arith, same, word),
    )

-- A quotient and a remainder that add up.
pub as_division :
    (u v : U256Muldiv) (flag : Bool) (q r : U256Muldiv) (result : Result (U256Muldiv × U256Muldiv))
    → 0 < value v
    → AreWords q
    → AreWords r
    → value u ≡ value q * value v + value r
    → value r < value v
    → result ≡ ok (q, if flag then r else zero_u256)
    → Divides u v flag result
as_division u v flag q r result hv wq wr e small returns = at_flag flag returns
  where
    exact : (value q ≡ value u / value v) × (value r / 1 ≡ value u % value v)
    exact =
        unscaled (value u) (value v) 1 (value q) (value r) hv (omega arith)
          (omega (arith, e, ap (λ y. value q * y) (mul-one (value v)))) (omega arith)

    at_flag :
        (flag : Bool) → result ≡ ok (q, if flag then r else zero_u256) → Divides u v flag result
    at_flag true returns = (q, r, returns, wq, exact.0, wr, omega (arith, exact.1))
    at_flag false returns = (
      q,
      zero_u256,
      returns,
      wq,
      exact.0,
      (omega arith, omega arith, omega arith, omega arith),
      refl,
    )

pub word_3 :
    (u0 u1 u2 v0 : ℕ) (flag : Bool)
    → AreWords (items u0 u1 u2 0)
    → 0 < v0
    → v0 < u64_mod
    → Divides
        (items u0 u1 u2 0)
        (items v0 0 0 0)
        flag
        (div_word 3 (items u0 u1 u2 0) (items v0 0 0 0) flag)
unfolding div_word short_division get_word update_word
word_3 u0 u1 u2 v0 flag (h0, h1, h2, h3) positive hv =
    let r2 = short_word v0 0 u2 in
    let r1 = short_word v0 r2.1 u1 in
    let r0 = short_word v0 r1.1 u0 in
    let (e2, s2, w2) = short_word-value v0 0 u2 positive hv h2 in
    let (e1, s1, w1) = short_word-value v0 r2.1 u1 s2 hv h1 in
    let (e0, s0, w0) = short_word-value v0 r1.1 u0 s1 hv h0 in
    let (words, number) = new-value 0 r0.1 (omega arith) (omega arith) in
    as_division (items u0 u1 u2 0) (items v0 0 0 0) flag (items r0.0 r1.0 r2.0 0) (new 0 r0.1)
      (div_word 3 (items u0 u1 u2 0) (items v0 0 0 0) flag) (omega arith) (w0, w1, w2, omega arith)
      words (omega (arith, e0, e1, e2, number, times r0.0 r1.0 r2.0 0 (value (items v0 0 0 0))))
      (omega (arith, number)) refl

pub word_4 :
    (u0 u1 u2 u3 v0 : ℕ) (flag : Bool)
    → AreWords (items u0 u1 u2 u3)
    → 0 < v0
    → v0 < u64_mod
    → Divides
        (items u0 u1 u2 u3)
        (items v0 0 0 0)
        flag
        (div_word 4 (items u0 u1 u2 u3) (items v0 0 0 0) flag)
unfolding div_word short_division get_word update_word
word_4 u0 u1 u2 u3 v0 flag (h0, h1, h2, h3) positive hv =
    let r3 = short_word v0 0 u3 in
    let r2 = short_word v0 r3.1 u2 in
    let r1 = short_word v0 r2.1 u1 in
    let r0 = short_word v0 r1.1 u0 in
    let (e3, s3, w3) = short_word-value v0 0 u3 positive hv h3 in
    let (e2, s2, w2) = short_word-value v0 r3.1 u2 s3 hv h2 in
    let (e1, s1, w1) = short_word-value v0 r2.1 u1 s2 hv h1 in
    let (e0, s0, w0) = short_word-value v0 r1.1 u0 s1 hv h0 in
    let (words, number) = new-value 0 r0.1 (omega arith) (omega arith) in
    as_division (items u0 u1 u2 u3) (items v0 0 0 0) flag (items r0.0 r1.0 r2.0 r3.0) (new 0 r0.1)
      (div_word 4 (items u0 u1 u2 u3) (items v0 0 0 0) flag) (omega arith) (w0, w1, w2, w3) words
      (omega (arith, e0, e1, e2, e3, number, times r0.0 r1.0 r2.0 r3.0 (value (items v0 0 0 0))))
      (omega (arith, number)) refl

-- A number of two words is a `u128`.
pub try_into_u128-value :
    (a b : ℕ) → a < u64_mod → b < u64_mod → try_into_u128 (items a b 0 0) ≡ ok (a + u64_mod * b)
unfolding try_into_u128 num_words
try_into_u128-value a b ha hb =
    let small : (b * 2 ^ 64 % u128_mod) % 2 ^ 64 ≡ 0 = omega arith in
    let joined = bit_or-eq-add 64 (b * 2 ^ 64 % u128_mod) a small ha in ground (arith, joined)

pub two_by_two :
    (u0 u1 v0 v1 : ℕ) (flag : Bool)
    → u0 < u64_mod
    → u1 < u64_mod
    → v0 < u64_mod
    → v1 < u64_mod
    → 0 < value (items v0 v1 0 0)
    → Divides
        (items u0 u1 0 0)
        (items v0 v1 0 0)
        flag
        (div_u128 (items u0 u1 0 0) (items v0 v1 0 0) flag)
unfolding div_u128
two_by_two u0 u1 v0 v1 flag h0 h1 g0 g1 positive =
    let n : ℕ = u0 + u64_mod * u1 in
    let d : ℕ = v0 + u64_mod * v1 in
    let read_n = try_into_u128-value u0 u1 h0 h1 in
    let read_d = try_into_u128-value v0 v1 g0 g1 in
    let nonzero : 0 < d = omega arith in
    let divided = div-add-mod n d in
    let small : n % d < d = mod-lt n nonzero in
    let bound : n / d ≤ n = div-le_self n d in
    let (wq, eq) = new-value 0 (n / d) (omega arith) (omega arith) in
    let (wr, er) = new-value 0 (n % d) (omega arith) (omega arith) in
    let eq' : value (new 0 (n / d)) ≡ n / d = omega arith in
    as_division (items u0 u1 0 0) (items v0 v1 0 0) flag (new 0 (n / d)) (new 0 (n % d))
      (div_u128 (items u0 u1 0 0) (items v0 v1 0 0) flag) positive wq wr
      (omega (arith, er, divided, ap (λ y. y * d) eq', mul_comm d (n / d)))
      (omega (arith, er, small))
      (then_returns _ _ (ap unwrap_ok read_n) (then_returns _ _ (ap unwrap_ok read_d) refl))
