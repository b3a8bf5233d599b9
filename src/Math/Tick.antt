-- ===== src/Math/Tick.antt =====
-- programs/elysium/src/math/tick_math.rs: prices as Q64.64 square roots, and tick indices.
use Prim.Native.Nat.{bit_and}
use elysium_dex.Base.{
  ℕ, zero, suc, ◌+◌, ◌-◌, ◌*◌, ◌/◌, ◌%◌, ◌^◌, not, List, [], ◌∷◌, ltb, leb, ◌==◌, if◌then◌else◌,
}
use elysium_dex.Base.Int.{ℤ, pos, negsuc, eqb_ℤ}
use elysium_dex.Base.Words.{u128_mod, mul_u128, i32_max, fits, add_i128, sub_i128, mul_i128, shr_ℤ}
use elysium_dex.Errors.{Result, ok, panic, unwrap_ok, ◌>>=◌}
use elysium_dex.Math.U256.{shift_right, try_into_u128}
use elysium_dex.Math.U256.Multiply.{mul_u256}
use elysium_dex.Math.U256.Divide.{leading_zeros}

abbrev pub max_sqrt_price_x64 : ℕ
max_sqrt_price_x64 = 79226673515401279992447579055

abbrev pub min_sqrt_price_x64 : ℕ
min_sqrt_price_x64 = 4295048016

abbrev log_b_2_x32 : ℤ
log_b_2_x32 = pos 59543866431248

abbrev bit_precision : ℕ
bit_precision = 14

abbrev log_b_p_err_margin_lower_x64 : ℤ
log_b_p_err_margin_lower_x64 = pos 184467440737095516

abbrev log_b_p_err_margin_upper_x64 : ℤ
log_b_p_err_margin_upper_x64 = pos 15793534762490258745

unfoldable pub mul_shift_96 : ℕ → ℕ → Result ℕ
unfolding mul_u256 shift_right try_into_u128
mul_shift_96 a b = unwrap_ok (try_into_u128 (shift_right (mul_u256 a b) 96))

-- The bits of the tick that `get_sqrt_price_positive_tick` tests, with their factors.
abbrev pub positive_factors : List (ℕ × ℕ)
positive_factors =
    (2, 79236085330515764027303304731)
    ∷ (4, 79244008939048815603706035061)
    ∷ (8, 79259858533276714757314932305)
    ∷ (16, 79291567232598584799939703904)
    ∷ (32, 79355022692464371645785046466)
    ∷ (64, 79482085999252804386437311141)
    ∷ (128, 79736823300114093921829183326)
    ∷ (256, 80248749790819932309965073892)
    ∷ (512, 81282483887344747381513967011)
    ∷ (1024, 83390072131320151908154831281)
    ∷ (2048, 87770609709833776024991924138)
    ∷ (4096, 97234110755111693312479820773)
    ∷ (8192, 119332217159966728226237229890)
    ∷ (16384, 179736315981702064433883588727)
    ∷ (32768, 407748233172238350107850275304)
    ∷ (65536, 2098478828474011932436660412517)
    ∷ (131072, 55581415166113811149459800483533)
    ∷ (262144, 38992368544603139932233054999993551)
    ∷ []

abbrev pub negative_factors : List (ℕ × ℕ)
negative_factors =
    (2, 18444899583751176498)
    ∷ (4, 18443055278223354162)
    ∷ (8, 18439367220385604838)
    ∷ (16, 18431993317065449817)
    ∷ (32, 18417254355718160513)
    ∷ (64, 18387811781193591352)
    ∷ (128, 18329067761203520168)
    ∷ (256, 18212142134806087854)
    ∷ (512, 17980523815641551639)
    ∷ (1024, 17526086738831147013)
    ∷ (2048, 16651378430235024244)
    ∷ (4096, 15030750278693429944)
    ∷ (8192, 12247334978882834399)
    ∷ (16384, 8131365268884726200)
    ∷ (32768, 3584323654723342297)
    ∷ (65536, 696457651847595233)
    ∷ (131072, 26294789957452057)
    ∷ (262144, 37481735321082)
    ∷ []

-- `if tick & bit != 0 { ratio = mul_shift_96(ratio, factor); }`, for each bit in turn.
unfoldable pub multiply_up : List (ℕ × ℕ) → ℕ → ℕ → Result ℕ
unfolding mul_shift_96
multiply_up [] tick ratio = ok ratio
multiply_up ((bit, factor) ∷ rest) tick ratio = do
  ratio' ← if not (bit_and tick bit == 0) then mul_shift_96 ratio factor else ok ratio
  multiply_up rest tick ratio'

unfoldable pub get_sqrt_price_positive_tick : ℕ → Result ℕ
unfolding multiply_up
get_sqrt_price_positive_tick tick = do
  let ratio =
      if not (bit_and tick 1 == 0)
      then 79232123823359799118286999567
      else 79228162514264337593543950336
  ratio' ← multiply_up positive_factors tick ratio
  ok (ratio' / 2 ^ 32)

-- `if abs_tick & bit != 0 { ratio = (ratio * factor) >> 64 }`, for each bit in turn.
unfoldable pub multiply_down : List (ℕ × ℕ) → ℕ → ℕ → ℕ
multiply_down [] tick ratio = ratio
multiply_down ((bit, factor) ∷ rest) tick ratio =
    multiply_down rest tick
      (if not (bit_and tick bit == 0) then mul_u128 ratio factor / 2 ^ 64 else ratio)

unfoldable pub get_sqrt_price_negative_tick : ℕ → ℕ
unfolding multiply_down
get_sqrt_price_negative_tick abs_tick =
    multiply_down negative_factors abs_tick
      (if not (bit_and abs_tick 1 == 0) then 18445821805675392311 else 18446744073709551616)

unfoldable pub sqrt_price_from_tick_index : ℤ → Result ℕ
unfolding get_sqrt_price_positive_tick get_sqrt_price_negative_tick
sqrt_price_from_tick_index (pos n) = get_sqrt_price_positive_tick n
sqrt_price_from_tick_index (negsuc n) = ok (get_sqrt_price_negative_tick (suc n))

-- The rounds of `while bit > 0 && precision < BIT_PRECISION`: squaring `r` yields the next binary
-- digit of its logarithm. `rounds` is what is left of the precision.
unfoldable pub log2_fraction : ℕ → ℕ → ℕ → ℕ → ℕ
log2_fraction zero bit r fraction = fraction
log2_fraction (suc rounds) bit r fraction =
    let square = mul_u128 r r in
    let is_r_more_than_two = square / 2 ^ 127 in
    let rest =
      log2_fraction rounds (bit / 2) (square / 2 ^ (63 + is_r_more_than_two))
        (fraction + bit * is_r_more_than_two) in
    if ltb 0 bit then rest else fraction

-- `msb` wraps at a price of zero, and a shift takes its amount modulo 128.
unfoldable pub log2_x32 : ℕ → ℤ
unfolding leading_zeros log2_fraction add_i128 sub_i128 mul_i128
log2_x32 price =
    let msb = (127 + 2 ^ 32 - leading_zeros 128 price) % 2 ^ 32 in
    let integer = mul_i128 (sub_i128 (pos msb) (pos 64)) (pos (2 ^ 32)) in
    let r =
      (if leb 64 msb then price / 2 ^ ((msb - 63) % 128) else price * 2 ^ (63 - msb) % u128_mod) in
    add_i128 integer (pos (log2_fraction bit_precision (2 ^ 63) r 0 / 2 ^ 32))

-- `i128` to `i32`, `try_into().unwrap()`
unfoldable pub into_i32 : ℤ → Result ℤ
into_i32 a = if fits i32_max a then ok a else panic

unfoldable pub tick_index_from_sqrt_price : ℕ → Result ℤ
unfolding log2_x32 sqrt_price_from_tick_index add_i128 sub_i128 mul_i128 into_i32
tick_index_from_sqrt_price price = do
  let logbp_x64 = mul_i128 (log2_x32 price) log_b_2_x32
  tick_low ← into_i32 (shr_ℤ (sub_i128 logbp_x64 log_b_p_err_margin_lower_x64) 64)
  tick_high ← into_i32 (shr_ℤ (add_i128 logbp_x64 log_b_p_err_margin_upper_x64) 64)
  if eqb_ℤ tick_low tick_high then ok tick_low else (do
    actual ← sqrt_price_from_tick_index tick_high
    ok (if leb actual price then tick_high else tick_low))
