-- ===== src/Base/Bits.antt =====
-- `&` with a mask of ones is a remainder.
use Prim.Native.Nat.{
  ℕ, zero, suc, ◌+◌, ◌*◌, ◌/◌, ◌%◌, ◌^◌, ◌≤◌, ◌<◌, min, max, bit_and, bit_or, digits,
  bit_and-bitwise, bit_or-bitwise,
}
use mathlib.Core.Path.{◌≡◌, ap, sym, ◌∙◌}
use native.Mathlib.Omega.{arith}
use native.Mathlib.Nat.{
  pow-suc, zero-mod, mod-one, mod-lt, mod-eq_of_lt, div-add-mod, mul-add-mod_self_left,
}

-- The remainder by `2 * t` has the lowest digit of the number and, above it, the remainder by `t`
-- of the other digits.
low_digit : (x t : ℕ) → 0 < t → x % (t * 2) ≡ x / 2 % t * 2 + x % 2
low_digit x t h =
    let r : ℕ = x / 2 % t * 2 + x % 2 in
    let q : ℕ = x / 2 / t in
    let small : r < t * 2 = omega (arith, mod-lt (x / 2) h) in
    let split : x ≡ t * 2 * q + r = grind (arith, div-add-mod (x / 2) t) in
    ap (λ y. y % (t * 2)) split ∙ mul-add-mod_self_left (t * 2) q r ∙ mod-eq_of_lt small

masked : (n k x m : ℕ) → x ≤ n → suc m ≡ 2 ^ k → digits (λ y. 0) min n x m ≡ x % 2 ^ k
masked zero k zero m h e = sym (zero-mod (2 ^ k))
masked zero k (suc x) m h e = absurd (omega arith)
masked (suc n) k zero m h e = sym (zero-mod (2 ^ k))
masked (suc n) zero (suc x) zero h e =
    omega (arith, masked n zero (suc x / 2) 0 (omega arith) e, mod-one (suc x / 2), mod-one (suc x))
masked (suc n) zero (suc x) (suc m) h e = absurd (omega arith)
masked (suc n) (suc k) (suc x) m h e =
    let power : 2 ^ suc k ≡ 2 ^ k * 2 = pow-suc 2 k in
    let rest = masked n k (suc x / 2) (m / 2) (omega arith) (omega arith) in
    rw power (omega (arith, rest, low_digit (suc x) (2 ^ k) (omega arith)))

-- A mask of `k` ones keeps the low `k` bits.
pub bit_and-eq-mod : (k a m : ℕ) → suc m ≡ 2 ^ k → bit_and a m ≡ a % 2 ^ k
bit_and-eq-mod k a m e = bit_and-bitwise a m ∙ masked a k a m (omega arith) e

joined : (n k a b : ℕ) → a ≤ n → a % 2 ^ k ≡ 0 → b < 2 ^ k → digits (λ y. y) max n a b ≡ a + b
joined zero k zero b h e l = omega arith
joined zero k (suc a) b h e l = absurd (omega arith)
joined (suc n) k zero b h e l = omega arith
joined (suc n) zero (suc a) zero h e l =
    omega (arith, joined n zero (suc a / 2) 0 (omega arith) (mod-one (suc a / 2)) (omega arith))
joined (suc n) zero (suc a) (suc b) h e l = absurd (omega arith)
joined (suc n) (suc k) (suc a) b h e l =
    let power : 2 ^ suc k ≡ 2 ^ k * 2 = pow-suc 2 k in
    let positive : 0 < 2 ^ k = omega arith in
    let split : suc a / 2 % 2 ^ k * 2 + suc a % 2 ≡ 0 =
      sym (low_digit (suc a) (2 ^ k) positive) ∙ ap (λ t. suc a % t) (sym power) ∙ e in
    let rest = joined n k (suc a / 2) (b / 2) (omega arith) (omega arith) (omega arith) in
    omega (arith, rest)

-- The digits of a multiple of `2 ^ k` and those of a number below it do not meet.
pub bit_or-eq-add : (k a b : ℕ) → a % 2 ^ k ≡ 0 → b < 2 ^ k → bit_or a b ≡ a + b
bit_or-eq-add k a b e l = bit_or-bitwise a b ∙ joined a k a b (omega arith) e l

joined_low : (n k a b : ℕ) → a ≤ n → a < 2 ^ k → b % 2 ^ k ≡ 0 → digits (λ y. y) max n a b ≡ a + b
joined_low zero k zero b h l e = omega arith
joined_low zero k (suc a) b h l e = absurd (omega arith)
joined_low (suc n) k zero b h l e = omega arith
joined_low (suc n) zero (suc a) b h l e = absurd (omega arith)
joined_low (suc n) (suc k) (suc a) b h l e =
    let power : 2 ^ suc k ≡ 2 ^ k * 2 = pow-suc 2 k in
    let positive : 0 < 2 ^ k = omega arith in
    let split : b / 2 % 2 ^ k * 2 + b % 2 ≡ 0 =
      sym (low_digit b (2 ^ k) positive) ∙ ap (λ t. b % t) (sym power) ∙ e in
    let rest = joined_low n k (suc a / 2) (b / 2) (omega arith) (omega arith) (omega arith) in
    omega (arith, rest)

-- The same with the smaller number first.
pub bit_or-eq-add_low : (k a b : ℕ) → a < 2 ^ k → b % 2 ^ k ≡ 0 → bit_or a b ≡ a + b
bit_or-eq-add_low k a b l e = bit_or-bitwise a b ∙ joined_low a k a b (omega arith) l e
