-- ===== src/Math/U256/Multiply.antt =====
-- `mul` and `mul_u256` of programs/elysium/src/math/u256_math.rs.
use elysium_dex.Base.{ℕ, zero, suc, ◌+◌, ltb, if◌then◌else◌}
use elysium_dex.Base.Words.{add_u128, mul_u128, as_u64}
use elysium_dex.Errors.{Result, ok, ◌>>=◌}
use elysium_dex.Math.U256.{
  U256Muldiv, zero_u256, new, num_words, get_word, update_word, lo, hi, lo_u128, hi_u128, hi_lo,
}

-- The inner loop of `mul`, `for i in 0..m` from the round `i`: the result and the carry `k`.
unfoldable pub mul_row :
    ℕ → ℕ → ℕ → U256Muldiv → U256Muldiv → ℕ → U256Muldiv → Result (U256Muldiv × ℕ)
unfolding get_word update_word lo hi_u128
mul_row zero i j u v k result = ok (result, k)
mul_row (suc rounds) i j u v k result =
    let skip = mul_row rounds (i + 1) j u v k result in
    let step = mul_row rounds (i + 1) j u v in
    if ltb (i + j) 4
    then (do
      x ← get_word u i
      y ← get_word v j
      z ← get_word result (i + j)
      let t = add_u128 (add_u128 (mul_u128 x y) z) k
      result' ← update_word result (i + j) (lo t)
      step (hi_u128 t) result')
    else skip

-- The outer loop, `for j in 0..n`.
unfoldable pub mul_rows : ℕ → ℕ → ℕ → U256Muldiv → U256Muldiv → U256Muldiv → Result U256Muldiv
unfolding mul_row
mul_rows zero j m u v result = ok result
mul_rows (suc rounds) j m u v result = do
  (row, k) ← mul_row m 0 j u v 0 result
  row' ← if ltb (j + m) 4 then update_word row (j + m) (as_u64 k) else ok row
  mul_rows rounds (j + 1) m u v row'

unfoldable pub mul : U256Muldiv → U256Muldiv → Result U256Muldiv
unfolding mul_rows num_words
mul u v = mul_rows (num_words v) 0 (num_words u) u v zero_u256

-- The 256-bit product of two `u128`.
unfoldable pub mul_u256 : ℕ → ℕ → U256Muldiv
unfolding new lo hi lo_u128 hi_u128 hi_lo
mul_u256 v n =
    let c_0 = mul_u128 (lo_u128 v) (lo_u128 n) in
    let a_1 = mul_u128 (lo_u128 v) (hi_u128 n) in
    let b_0 = mul_u128 (hi_u128 v) (lo_u128 n) in
    let c_1 = add_u128 (add_u128 (hi_u128 c_0) (lo_u128 a_1)) (lo_u128 b_0) in
    let low = hi_lo (lo c_1) (lo c_0) in
    let high =
      add_u128 (add_u128 (add_u128 (mul_u128 (hi_u128 v) (hi_u128 n)) (hi_u128 c_1)) (hi_u128 a_1))
        (hi_u128 b_0) in
    new high low
