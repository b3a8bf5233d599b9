-- ===== src/Math/U256/Shift/Whole.antt =====
-- `shift_left` and `shift_right` against multiplication and division by powers of two.
use elysium_dex.Base.{
  ℕ, zero, suc, ◌+◌, ◌-◌, ◌*◌, ◌/◌, ◌%◌, ◌^◌, ◌≤◌, ◌<◌, ◌≡◌, refl, sym, ap, ◌∙◌, arith, leb,
  by_branch, leb→le,
}
use elysium_dex.Base.Words.{u64_mod}
use elysium_dex.Math.U256.{
  U256Muldiv, zero_u256, shift_word_left, shift_word_right, word_shifts_left, word_shifts_right,
  bit_shift_left, shift_left, shift_right,
}
use elysium_dex.Math.U256.Value.{value, AreWords, u256_mod}
use elysium_dex.Math.U256.Shift.{pow_split, bit_shift_left-value, bit_shift_right-value}
use native.Mathlib.Nat.{
  add-mul, mul_assoc, mul-mod_right, mul_left_comm, div-eq_of_lt, div-div-eq-div-mul,
  pow-le-pow_right,
}

-- A number, shifted: less than a word is left of the shift, and what is lost stands above the four
-- words.
abbrev IsLeft : (n s : ℕ) → U256Muldiv × ℕ → Type 0
IsLeft n s (v, r) =
    AreWords v × (r < 64) × ((lost : ℕ) × (value v * 2 ^ r + u256_mod * lost ≡ n * 2 ^ s))

abbrev IsRight : (n s : ℕ) → U256Muldiv × ℕ → Type 0
IsRight n s (v, r) = AreWords v × (r < 64) × (value v / 2 ^ r ≡ n / 2 ^ s)

-- A shift by a word and one by the rest.
by_word : (s : ℕ) → 64 ≤ s → 2 ^ s ≡ u64_mod * 2 ^ (s - 64)
by_word s h =
    let whole : s ≡ 64 + (s - 64) = omega arith in ap (λ k. 2 ^ k) whole ∙ pow_split 64 (s - 64)

lose_more :
    (n v x p q e lost : ℕ)
    → v + u256_mod * x ≡ n * u64_mod
    → e ≡ u64_mod * p
    → q + u256_mod * lost ≡ v * p
    → q + u256_mod * (lost + x * p) ≡ n * e
lose_more n v x p q e lost shifted power rest =
    let distributed : v * p + u256_mod * x * p ≡ n * u64_mod * p =
      sym (add-mul v (u256_mod * x) p) ∙ ap (λ y. y * p) shifted in
    omega (
      arith,
      rest,
      distributed,
      mul_assoc n u64_mod p,
      ap (λ y. n * y) power,
      mul_assoc u256_mod x p,
    )

word_shifts_left-IsLeft :
    (fuel : ℕ) (u : U256Muldiv) (s : ℕ)
    → AreWords u
    → s < 64 * suc fuel
    → IsLeft (value u) s (word_shifts_left fuel u s)
unfolding word_shifts_left shift_word_left
word_shifts_left-IsLeft zero u s words h = (words, omega arith, (0, omega arith))
word_shifts_left-IsLeft (suc fuel) u s (h0, h1, h2, h3) h =
    by_branch (IsLeft (value u) s) (leb 64 s)
      (λ reached.
        let le : 64 ≤ s = grind arith in
        let v = shift_word_left u in
        let rest = word_shifts_left fuel v (s - 64) in
        let p : ℕ = 2 ^ (s - 64) in
        let (words, small, (lost, e)) =
          word_shifts_left-IsLeft fuel v (s - 64) (omega arith, h0, h1, h2) (omega arith) in
        (
          words,
          small,
          (
            lost + u.item_3 * p,
            lose_more (value u) (value v) u.item_3 p (value rest.0 * 2 ^ rest.1) (2 ^ s) lost
                (omega arith) (by_word s le) e,
          ),
        ))
      λ short. ((h0, h1, h2, h3), grind arith, (0, omega arith))

word_shifts_right-IsRight :
    (fuel : ℕ) (u : U256Muldiv) (s : ℕ)
    → AreWords u
    → s < 64 * suc fuel
    → IsRight (value u) s (word_shifts_right fuel u s)
unfolding word_shifts_right shift_word_right
word_shifts_right-IsRight zero u s words h = (words, omega arith, refl)
word_shifts_right-IsRight (suc fuel) u s (h0, h1, h2, h3) h =
    by_branch (IsRight (value u) s) (leb 64 s)
      (λ reached.
        let le : 64 ≤ s = grind arith in
        let v = shift_word_right u in
        let (words, small, e) =
          word_shifts_right-IsRight fuel v (s - 64) (h1, h2, h3, omega arith) (omega arith) in
        let shifted : value v ≡ value u / u64_mod = omega arith in
        (
          words,
          small,
          e
              ∙ ap (λ y. y / 2 ^ (s - 64)) shifted
              ∙ div-div-eq-div-mul (value u) u64_mod (2 ^ (s - 64))
              ∙ ap (λ y. value u / y) (sym (by_word s le)),
        ))
      λ short. ((h0, h1, h2, h3), grind arith, refl)

remainder : (w lost x : ℕ) → w < u256_mod → w + u256_mod * lost ≡ x → w ≡ x % u256_mod
remainder w lost x h e = omega arith

pub value-small : (u : U256Muldiv) → AreWords u → value u < u256_mod
value-small u (h0, h1, h2, h3) = omega arith

all_lost : (n s : ℕ) → 256 ≤ s → 0 ≡ n * 2 ^ s % u256_mod
all_lost n s h =
    let whole : s ≡ 256 + (s - 256) = omega arith in
    let power : 2 ^ s ≡ u256_mod * 2 ^ (s - 256) =
      ap (λ k. 2 ^ k) whole ∙ pow_split 256 (s - 256) in
    let split : n * 2 ^ s ≡ u256_mod * (n * 2 ^ (s - 256)) =
      ap (λ y. n * y) power ∙ mul_left_comm n u256_mod (2 ^ (s - 256)) in
    sym (ap (λ y. y % u256_mod) split ∙ mul-mod_right u256_mod (n * 2 ^ (s - 256)))

abbrev ShiftsLeft : (n s : ℕ) → U256Muldiv → Type 0
ShiftsLeft n s w = AreWords w × (value w ≡ n * 2 ^ s % u256_mod)

abbrev ShiftsRight : (n s : ℕ) → U256Muldiv → Type 0
ShiftsRight n s w = AreWords w × (value w ≡ n / 2 ^ s)

zero-AreWords : AreWords zero_u256
zero-AreWords = (omega arith, omega arith, omega arith, omega arith)

shift_left-ShiftsLeft :
    (u : U256Muldiv) (s : ℕ) → AreWords u → ShiftsLeft (value u) s (shift_left u s)
unfolding shift_left
shift_left-ShiftsLeft u s words =
    by_branch (ShiftsLeft (value u) s) (leb 256 s)
      (λ reached. (zero-AreWords, all_lost (value u) s (leb→le 256 s reached)))
      λ short.
        let shifted = word_shifts_left 4 u s in
        let (held, small, (lost, e)) = word_shifts_left-IsLeft 4 u s words (grind arith) in
        let (done, f) = bit_shift_left-value shifted.0 shifted.1 held small in
        let top : ℕ = shifted.0.item_3 / 2 ^ (64 - shifted.1) in
        (
          done,
          remainder (value (bit_shift_left shifted.0 shifted.1)) (top + lost) (value u * 2 ^ s)
              (value-small _ done) (omega (arith, e, f)),
        )

shift_right-ShiftsRight :
    (u : U256Muldiv) (s : ℕ) → AreWords u → ShiftsRight (value u) s (shift_right u s)
unfolding shift_right
shift_right-ShiftsRight u s words =
    by_branch (ShiftsRight (value u) s) (leb 256 s)
      (λ reached.
        let large =
          pow-le-pow_right {n = 2} (omega arith) {i = 256} {j = s} (leb→le 256 s reached) in
        let below : value u < 2 ^ s = omega (arith, value-small u words, large) in
        (zero-AreWords, sym (div-eq_of_lt below)))
      λ short.
        let shifted = word_shifts_right 4 u s in
        let (held, small, e) = word_shifts_right-IsRight 4 u s words (grind arith) in
        let (done, f) = bit_shift_right-value shifted.0 shifted.1 held small in (done, f ∙ e)

-- A shift to the left multiplies by a power of two, modulo 2^256, and a shift to the right divides
-- by it, both for every amount.
pub shift-value :
    (u : U256Muldiv) (s : ℕ)
    → AreWords u
    → (AreWords (shift_left u s) × (value (shift_left u s) ≡ value u * 2 ^ s % u256_mod))
      × AreWords (shift_right u s)
      × (value (shift_right u s) ≡ value u / 2 ^ s)
shift-value u s words =
    let (held, e) = shift_right-ShiftsRight u s words in (shift_left-ShiftsLeft u s words, held, e)
