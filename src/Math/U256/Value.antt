-- ===== src/Math/U256/Value.antt =====
-- The number that four words stand for, and what addition, subtraction and comparison do to it.
use elysium_dex.Base.{ℕ, ◌+◌, ◌-◌, ◌*◌, ◌%◌, ◌^◌, ◌≤◌, ◌<◌, ◌≡◌, refl, arith, ltb, leb, ◌==◌}
use elysium_dex.Base.Bits.{bit_and-eq-mod}
use elysium_dex.Base.Words.{u64_mod, add_u128}
use elysium_dex.Math.U256.{
  U256Muldiv, lo, hi_u128, add_word, add, sub_word, sub, compare_words, compare_items, lt, gt, lte,
  gte, eq,
}

-- The value of the words.
abbrev pub value : U256Muldiv → ℕ
value u = u.item_0 + 2 ^ 64 * (u.item_1 + 2 ^ 64 * (u.item_2 + 2 ^ 64 * u.item_3))

abbrev pub u256_mod : ℕ
u256_mod = 2 ^ 256

-- Every item is a word.
abbrev pub AreWords : U256Muldiv → Type 0
AreWords u =
    (u.item_0 < u64_mod) × (u.item_1 < u64_mod) × (u.item_2 < u64_mod) × (u.item_3 < u64_mod)

pub lo-eq-mod : (x : ℕ) → lo x ≡ x % u64_mod
unfolding lo
lo-eq-mod x = omega (arith, bit_and-eq-mod 64 x 0xffff_ffff_ffff_ffff refl)

-- A word of the sum and the carry.
abbrev IsSum : ℕ → ℕ → ℕ → ℕ × ℕ → Type 0
IsSum x y carry (word, next) =
    (word + 2 ^ 64 * next ≡ x + y + carry) × (word < u64_mod) × (next ≤ 1)

add_word-IsSum :
    (x y carry : ℕ) → x < u64_mod → y < u64_mod → carry ≤ 1 → IsSum x y carry (add_word x y carry)
unfolding add_word hi_u128
add_word-IsSum x y c p q r = omega (arith, lo-eq-mod (add_u128 (add_u128 x y) c))

-- A word of the difference and the borrow.
abbrev IsDifference : ℕ → ℕ → ℕ → ℕ × ℕ → Type 0
IsDifference x y borrow (word, next) =
    (word + y + borrow ≡ x + 2 ^ 64 * next) × (word < u64_mod) × (next ≤ 1)

sub_word-IsDifference :
    (x y borrow : ℕ)
    → x < u64_mod
    → y < u64_mod
    → borrow ≤ 1
    → IsDifference x y borrow (sub_word x y borrow)
unfolding sub_word
sub_word-IsDifference x y b p q r = ground arith

-- Addition of four words is addition modulo 2^256.
pub add-value :
    (u v : U256Muldiv)
    → AreWords u
    → AreWords v
    → AreWords (add u v) × (value (add u v) ≡ (value u + value v) % u256_mod)
unfolding add
add-value u v (u0, u1, u2, u3) (v0, v1, v2, v3) =
    let w0 = add_word u.item_0 v.item_0 0 in
    let w1 = add_word u.item_1 v.item_1 w0.1 in
    let w2 = add_word u.item_2 v.item_2 w1.1 in
    let w3 = add_word u.item_3 v.item_3 w2.1 in
    let (e0, a0, c0) = add_word-IsSum u.item_0 v.item_0 0 u0 v0 (omega arith) in
    let (e1, a1, c1) = add_word-IsSum u.item_1 v.item_1 w0.1 u1 v1 c0 in
    let (e2, a2, c2) = add_word-IsSum u.item_2 v.item_2 w1.1 u2 v2 c1 in
    let (e3, a3, c3) = add_word-IsSum u.item_3 v.item_3 w2.1 u3 v3 c2 in
    ((a0, a1, a2, a3), omega arith)

-- Subtraction of four words is subtraction modulo 2^256.
pub sub-value :
    (u v : U256Muldiv)
    → AreWords u
    → AreWords v
    → AreWords (sub u v) × (value (sub u v) ≡ (value u + (u256_mod - value v)) % u256_mod)
unfolding sub
sub-value u v (u0, u1, u2, u3) (v0, v1, v2, v3) =
    let w0 = sub_word u.item_0 v.item_0 0 in
    let w1 = sub_word u.item_1 v.item_1 w0.1 in
    let w2 = sub_word u.item_2 v.item_2 w1.1 in
    let w3 = sub_word u.item_3 v.item_3 w2.1 in
    let (e0, a0, c0) = sub_word-IsDifference u.item_0 v.item_0 0 u0 v0 (omega arith) in
    let (e1, a1, c1) = sub_word-IsDifference u.item_1 v.item_1 w0.1 u1 v1 c0 in
    let (e2, a2, c2) = sub_word-IsDifference u.item_2 v.item_2 w1.1 u2 v2 c1 in
    let (e3, a3, c3) = sub_word-IsDifference u.item_3 v.item_3 w2.1 u3 v3 c2 in
    ((a0, a1, a2, a3), omega arith)

-- The five comparisons of four words are those of the numbers that they stand for.
pub compare-value :
    (u v : U256Muldiv)
    → AreWords u
    → AreWords v
    → (lt u v ≡ ltb (value u) (value v))
      × (gt u v ≡ ltb (value v) (value u))
      × (lte u v ≡ leb (value u) (value v))
      × (gte u v ≡ leb (value v) (value u))
      × (eq u v ≡ (value u == value v))
unfolding lt gt lte gte eq compare_items compare_words
compare-value u v (u0, u1, u2, u3) (v0, v1, v2, v3) =
    (ground arith, ground arith, ground arith, ground arith, ground arith)
