-- ===== src/Math/U256/Divide.antt =====
-- `div` and `div_loop` of programs/elysium/src/math/u256_math.rs: long division by words.
pub mod Estimate
pub mod Rows
pub mod Digit
pub mod Bounds
pub mod Core
pub mod Words
pub mod Steps
pub mod Rounds
pub mod Normalise
pub mod Scaled
pub mod Normalised
pub mod Short
pub mod Exact
pub mod Print
use elysium_dex.Base.{
  ℕ, zero, suc, ◌+◌, ◌-◌, ◌/◌, ◌%◌, ◌^◌, Bool, not, ◌||◌, ◌&&◌, Option, none, some, ltb, ◌==◌,
  if◌then◌else◌,
}
use elysium_dex.Base.Words.{add_u128, sub_u128, mul_u128, sub_u64, as_u64}
use elysium_dex.Errors.{Result, ok, panic, unwrap, unwrap_ok, ◌>>=◌}
use elysium_dex.Math.U256.{
  U256Muldiv, zero_u256, new, num_words, get_word, update_word, lo, hi, lo_u128, hi_lo,
  try_into_u128, shift_left, shift_right,
}

-- `leading_zeros` of a word of `w` bits.
unfoldable pub leading_zeros : ℕ → ℕ → ℕ
leading_zeros zero x = 0
leading_zeros (suc w) x = let rest = leading_zeros w x in if ltb x (2 ^ w) then suc rest else 0

-- The loop that lowers the estimate of a quotient digit: `while qhat.hi() != 0 || cmp2 > cmp1`.
unfoldable pub adjust_qhat : ℕ → ℕ → ℕ → ℕ → ℕ → ℕ → ℕ → Option ℕ
unfolding lo hi hi_lo
adjust_qhat zero d1 d1_2 qhat rhat cmp1 cmp2 = none
adjust_qhat (suc fuel) d1 d1_2 qhat rhat cmp1 cmp2 =
    let qhat' = sub_u128 qhat 1 in
    let rhat' = add_u128 rhat d1 in
    let again =
      adjust_qhat fuel d1 d1_2 qhat' rhat' (hi_lo (lo rhat') (lo cmp1)) (sub_u128 cmp2 d1_2) in
    if not (hi qhat == 0) || ltb cmp1 cmp2
    then (if not (hi rhat' == 0) then some qhat' else again)
    else some qhat

-- The rounds of that loop: a normalised divisor's second round makes `rhat` overflow its word.
abbrev pub adjust_fuel : ℕ
adjust_fuel = 3

-- Multiply and subtract, `for i in 0..num_divisor_words`: the dividend and the borrow `k`.
unfoldable pub subtract_row : ℕ → ℕ → ℕ → ℕ → U256Muldiv → ℕ → U256Muldiv → Result (U256Muldiv × ℕ)
unfolding get_word update_word lo lo_u128
subtract_row zero i index qhat divisor k dividend = ok (dividend, k)
subtract_row (suc rounds) i index qhat divisor k dividend = do
  y ← get_word divisor i
  x ← get_word dividend (index + i)
  let p = mul_u128 qhat y
  let t = sub_u128 (sub_u128 x k) (lo_u128 p)
  dividend' ← update_word dividend (index + i) (lo t)
  subtract_row rounds (i + 1) index qhat divisor
      (sub_u64 (as_u64 (p / 2 ^ 64)) (as_u64 (t / 2 ^ 64))) dividend'

-- Add the divisor back, `for i in 0..num_divisor_words`.
unfoldable pub add_row : ℕ → ℕ → ℕ → U256Muldiv → ℕ → U256Muldiv → Result (U256Muldiv × ℕ)
unfolding get_word update_word lo
add_row zero i index divisor k dividend = ok (dividend, k)
add_row (suc rounds) i index divisor k dividend = do
  x ← get_word dividend (index + i)
  y ← get_word divisor i
  let t = add_u128 (add_u128 x y) k
  dividend' ← update_word dividend (index + i) (lo t)
  add_row rounds (i + 1) index divisor (t / 2 ^ 64) dividend'

-- The tail of `div_loop` where `k > d_head`: the digit, the dividend and the carry space.
unfoldable pub add_back :
    Bool → ℕ → ℕ → U256Muldiv → U256Muldiv → ℕ → ℕ → Result (ℕ × U256Muldiv × ℕ)
unfolding add_row get_word update_word lo
add_back use_carry index n divisor dividend carry_space qhat = do
  (restored, k) ← add_row n 0 index divisor 0 dividend
  head ← get_word restored (index + n)
  let new_carry = lo (add_u128 head k)
  if use_carry
      then ok (sub_u128 qhat 1, restored, new_carry)
      else update_word restored (index + n) new_carry >>= λ d. ok (sub_u128 qhat 1, d, carry_space)

-- One digit of the quotient: the quotient, the dividend and the carry space.
unfoldable pub div_loop :
    ℕ → ℕ → U256Muldiv → ℕ → U256Muldiv → U256Muldiv → Result (U256Muldiv × U256Muldiv × ℕ)
unfolding adjust_qhat subtract_row add_back get_word update_word lo hi_lo
div_loop index n dividend carry_space divisor quotient = do
  let use_carry = (index + n) == 4
  div_hi ← if use_carry then ok carry_space else get_word dividend (index + n)
  top ← get_word dividend (index + n - 1)
  d1 ← get_word divisor (n - 1)
  let d0 = hi_lo div_hi top
  let qhat = d0 / d1
  let rhat = sub_u128 d0 (mul_u128 d1 qhat)
  d0_2 ← get_word dividend (index + n - 2)
  d1_2 ← get_word divisor (n - 2)
  digit ←
      unwrap (adjust_qhat adjust_fuel d1 d1_2 qhat rhat (hi_lo (lo rhat) d0_2) (mul_u128 qhat d1_2))
  (reduced, k) ← subtract_row n 0 index digit divisor 0 dividend
  d_head ← if use_carry then ok carry_space else get_word reduced (index + n)
  let t = sub_u128 d_head k
  dividend' ← if use_carry then ok reduced else update_word reduced (index + n) (lo t)
  let carry_space' = if use_carry then lo t else carry_space
  (digit', dividend'', carry_space'') ←
      (if ltb d_head k
        then add_back use_carry index n divisor dividend' carry_space' digit
        else ok (digit, dividend', carry_space'))
  quotient' ← update_word quotient index (lo digit')
  ok (quotient', dividend'', carry_space'')

-- Case 3, `for j in (0..num_dividend_words).rev()`: division by one word.
unfoldable pub short_division : ℕ → ℕ → U256Muldiv → ℕ → U256Muldiv → Result (U256Muldiv × ℕ)
unfolding get_word update_word lo hi_lo
short_division zero d2 dividend k quotient = ok (quotient, k)
short_division (suc j) d2 dividend k quotient = do
  word ← get_word dividend j
  let d1 = hi_lo (lo k) word
  let q = d1 / d2
  quotient' ← update_word quotient j (lo q)
  short_division j d2 dividend (sub_u128 d1 (mul_u128 d2 q)) quotient'

-- `for j in (0..num_dividend_words - num_divisor_words + 1).rev()`
unfoldable pub long_division :
    ℕ → ℕ → U256Muldiv → ℕ → U256Muldiv → U256Muldiv → Result (U256Muldiv × U256Muldiv)
unfolding div_loop
long_division zero n dividend carry_space divisor quotient = ok (quotient, dividend)
long_division (suc j) n dividend carry_space divisor quotient = do
  (quotient', dividend', carry_space') ← div_loop j n dividend carry_space divisor quotient
  long_division j n dividend' carry_space' divisor quotient'

-- The normalised division, for a divisor of two words or more.
unfoldable pub div_normalised :
    ℕ → ℕ → U256Muldiv → U256Muldiv → Bool → Result (U256Muldiv × U256Muldiv)
unfolding leading_zeros long_division get_word shift_left shift_right
div_normalised m n dividend divisor return_remainder = do
  top_divisor ← get_word divisor (n - 1)
  top_dividend ← get_word dividend (m - 1)
  let s = leading_zeros 64 top_divisor
  let b = leading_zeros 64 top_dividend
  let carry_space = if m == 4 && ltb b s then top_dividend / 2 ^ (64 - s) else 0
  (quotient, rest) ←
      long_division (m - n + 1) n (shift_left dividend s) carry_space (shift_left divisor s)
        zero_u256
  ok (quotient, if return_remainder then shift_right rest s else zero_u256)

-- Case 2: the dividend fits in `u128`.
unfoldable pub div_u128 : U256Muldiv → U256Muldiv → Bool → Result (U256Muldiv × U256Muldiv)
unfolding try_into_u128 new
div_u128 dividend divisor return_remainder = do
  n ← unwrap_ok (try_into_u128 dividend)
  d ← unwrap_ok (try_into_u128 divisor)
  ok (new 0 (n / d), if return_remainder then new 0 (n % d) else zero_u256)

-- Case 3.
unfoldable pub div_word : ℕ → U256Muldiv → U256Muldiv → Bool → Result (U256Muldiv × U256Muldiv)
unfolding short_division new get_word
div_word m dividend divisor return_remainder = do
  d2 ← get_word divisor 0
  (quotient, k) ← short_division m d2 dividend 0 zero_u256
  ok (quotient, if return_remainder then new 0 k else zero_u256)

-- The quotient, and the remainder or zero.
unfoldable pub div : U256Muldiv → U256Muldiv → Bool → Result (U256Muldiv × U256Muldiv)
unfolding num_words div_u128 div_word div_normalised
div dividend divisor return_remainder =
    let m = num_words dividend in
    let n = num_words divisor in
    if n == 0
    then panic
    else if m == 0
    then ok (zero_u256, zero_u256)
    else if ltb m n
    then ok (zero_u256, if return_remainder then dividend else zero_u256)
    else if ltb m 3
    then div_u128 dividend divisor return_remainder
    else if n == 1
    then div_word m dividend divisor return_remainder
    else div_normalised m n dividend divisor return_remainder
