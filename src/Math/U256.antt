-- ===== src/Math/U256.antt =====
-- programs/elysium/src/math/u256_math.rs: a 256-bit number as four words, least significant first.
pub mod Multiply
pub mod Divide
pub mod Value
pub mod Product
pub mod Shift
use Prim.Native.Nat.{bit_and, bit_or}
use elysium_dex.Base.{
  ℕ, zero, suc, ◌+◌, ◌-◌, ◌*◌, ◌/◌, ◌%◌, ◌^◌, Bool, true, false, not, ◌&&◌, ◌||◌, Option, none,
  some, ltb, leb, ◌==◌, if◌then◌else◌,
}
use elysium_dex.Base.Words.{
  u64_mod, u128_mod, u64_max, u128_max, add_u64, sub_u64, add_u128, sub_u128, as_u64,
}
use elysium_dex.Errors.{Result, ok, err, panic, ErrorCode, number_down_cast_error}

-- `trait LoHi` for `u128`
unfoldable pub lo : ℕ → ℕ
lo x = as_u64 (bit_and x u64_max)

unfoldable pub hi : ℕ → ℕ
hi x = as_u64 (x / 2 ^ 64)

unfoldable pub lo_u128 : ℕ → ℕ
lo_u128 x = bit_and x u64_max

unfoldable pub hi_u128 : ℕ → ℕ
hi_u128 x = x / 2 ^ 64

unfoldable pub hi_lo : ℕ → ℕ → ℕ
hi_lo h l = bit_or (h * 2 ^ 64 % u128_mod) l

-- `items` is `[item_0, item_1, item_2, item_3]`.
pub record U256Muldiv : Type 0 where
  pub item_0 : ℕ
  pub item_1 : ℕ
  pub item_2 : ℕ
  pub item_3 : ℕ

abbrev pub items : ℕ → ℕ → ℕ → ℕ → U256Muldiv
items a b c d = record { item_0 = a; item_1 = b; item_2 = c; item_3 = d }

unfoldable pub new : ℕ → ℕ → U256Muldiv
unfolding lo hi
new h l = items (lo l) (hi l) (lo h) (hi h)

abbrev pub zero_u256 : U256Muldiv
zero_u256 = items 0 0 0 0

unfoldable pub update_word : U256Muldiv → ℕ → ℕ → Result U256Muldiv
update_word u zero v = ok (record u { item_0 = v })
update_word u (suc zero) v = ok (record u { item_1 = v })
update_word u (suc (suc zero)) v = ok (record u { item_2 = v })
update_word u (suc (suc (suc zero))) v = ok (record u { item_3 = v })
update_word u (suc (suc (suc (suc i)))) v = panic

unfoldable pub num_words : U256Muldiv → ℕ
num_words u =
    if not (u.item_3 == 0)
    then 4
    else if not (u.item_2 == 0)
    then 3
    else if not (u.item_1 == 0)
    then 2
    else if not (u.item_0 == 0)
    then 1
    else 0

-- Also `get_word_u128`, a cast of the same word.
unfoldable pub get_word : U256Muldiv → ℕ → Result ℕ
get_word u zero = ok u.item_0
get_word u (suc zero) = ok u.item_1
get_word u (suc (suc zero)) = ok u.item_2
get_word u (suc (suc (suc zero))) = ok u.item_3
get_word u (suc (suc (suc (suc i)))) = panic

unfoldable pub shift_word_left : U256Muldiv → U256Muldiv
shift_word_left u = items 0 u.item_0 u.item_1 u.item_2

unfoldable pub checked_shift_word_left : U256Muldiv → Option U256Muldiv
checked_shift_word_left u = if ltb 0 u.item_3 then none else some (shift_word_left u)

-- `while shift_amount >= 64`; each round takes 64 off an amount below 256, so four rounds do.
unfoldable pub word_shifts_left : ℕ → U256Muldiv → ℕ → U256Muldiv × ℕ
word_shifts_left zero u s = (u, s)
word_shifts_left (suc fuel) u s =
    let rest = word_shifts_left fuel (shift_word_left u) (s - 64) in
    if leb 64 s then rest else (u, s)

-- `x << s | y >> (64 - s)` and its mirror image, on words.
unfoldable pub funnel_left : ℕ → ℕ → ℕ → ℕ
funnel_left s x y = bit_or (x * 2 ^ s % u64_mod) (y / 2 ^ (64 - s))

unfoldable pub funnel_right : ℕ → ℕ → ℕ → ℕ
funnel_right s x y = bit_or (x / 2 ^ s) (y * 2 ^ (64 - s) % u64_mod)

unfoldable pub bit_shift_left : U256Muldiv → ℕ → U256Muldiv
unfolding funnel_left
bit_shift_left u s =
    if s == 0
    then u
    else items (u.item_0 * 2 ^ s % u64_mod) (funnel_left s u.item_1 u.item_0)
        (funnel_left s u.item_2 u.item_1) (funnel_left s u.item_3 u.item_2)

unfoldable pub shift_left : U256Muldiv → ℕ → U256Muldiv
unfolding bit_shift_left word_shifts_left shift_word_left
shift_left u s =
    if leb 256 s then zero_u256 else let (v, r) = word_shifts_left 4 u s in bit_shift_left v r

unfoldable pub shift_word_right : U256Muldiv → U256Muldiv
shift_word_right u = items u.item_1 u.item_2 u.item_3 0

unfoldable pub word_shifts_right : ℕ → U256Muldiv → ℕ → U256Muldiv × ℕ
word_shifts_right zero u s = (u, s)
word_shifts_right (suc fuel) u s =
    let rest = word_shifts_right fuel (shift_word_right u) (s - 64) in
    if leb 64 s then rest else (u, s)

unfoldable pub bit_shift_right : U256Muldiv → ℕ → U256Muldiv
unfolding funnel_right
bit_shift_right u s =
    if s == 0
    then u
    else items (funnel_right s u.item_0 u.item_1) (funnel_right s u.item_1 u.item_2)
        (funnel_right s u.item_2 u.item_3) (u.item_3 / 2 ^ s)

unfoldable pub shift_right : U256Muldiv → ℕ → U256Muldiv
unfolding bit_shift_right word_shifts_right shift_word_right
shift_right u s =
    if leb 256 s then zero_u256 else let (v, r) = word_shifts_right 4 u s in bit_shift_right v r

unfoldable pub eq : U256Muldiv → U256Muldiv → Bool
eq u v =
    u.item_0 == v.item_0 && u.item_1 == v.item_1 && u.item_2 == v.item_2 && u.item_3 == v.item_3

-- One round of the loops of `lt`, `gt`, `lte` and `gte`: the answer of a smaller and of a greater
-- word, and the rounds below.
unfoldable pub compare_words : Bool → Bool → ℕ → ℕ → Bool → Bool
compare_words less greater x y rest = if ltb x y then less else if ltb y x then greater else rest

unfoldable pub compare_items : Bool → Bool → Bool → U256Muldiv → U256Muldiv → Bool
unfolding compare_words
compare_items less greater equal u v = compare_words less greater u.item_3 v.item_3 (
    compare_words less greater u.item_2 v.item_2 (
      compare_words less greater u.item_1 v.item_1
        (compare_words less greater u.item_0 v.item_0 equal)))

unfoldable pub lt : U256Muldiv → U256Muldiv → Bool
unfolding compare_items
lt = compare_items true false false

unfoldable pub gt : U256Muldiv → U256Muldiv → Bool
unfolding compare_items
gt = compare_items false true false

unfoldable pub lte : U256Muldiv → U256Muldiv → Bool
unfolding compare_items
lte = compare_items true false true

unfoldable pub gte : U256Muldiv → U256Muldiv → Bool
unfolding compare_items
gte = compare_items false true true

unfoldable pub try_into_u128 : U256Muldiv → Result ℕ
unfolding num_words
try_into_u128 u =
    if ltb 2 (num_words u)
    then err number_down_cast_error
    else ok (bit_or (u.item_1 * 2 ^ 64 % u128_mod) u.item_0)

unfoldable pub is_zero : U256Muldiv → Bool
is_zero u = u.item_0 == 0 && u.item_1 == 0 && u.item_2 == 0 && u.item_3 == 0

-- One round of `add`: the word and the carry.
unfoldable pub add_word : ℕ → ℕ → ℕ → ℕ × ℕ
unfolding lo hi_u128
add_word x y carry = let t = add_u128 (add_u128 x y) carry in (lo t, hi_u128 t)

unfoldable pub add : U256Muldiv → U256Muldiv → U256Muldiv
unfolding add_word
add u v =
    let (t_0, c_0) = add_word u.item_0 v.item_0 0 in
    let (t_1, c_1) = add_word u.item_1 v.item_1 c_0 in
    let (t_2, c_2) = add_word u.item_2 v.item_2 c_1 in
    let (t_3, _) = add_word u.item_3 v.item_3 c_2 in items t_0 t_1 t_2 t_3

-- One round of `sub`, by two `overflowing_sub`.
unfoldable pub sub_word : ℕ → ℕ → ℕ → ℕ × ℕ
sub_word x y carry =
    let t = sub_u64 x y in (sub_u64 t carry, if ltb x y || ltb t carry then 1 else 0)

unfoldable pub sub : U256Muldiv → U256Muldiv → U256Muldiv
unfolding sub_word
sub u v =
    let (t_0, c_0) = sub_word u.item_0 v.item_0 0 in
    let (t_1, c_1) = sub_word u.item_1 v.item_1 c_0 in
    let (t_2, c_2) = sub_word u.item_2 v.item_2 c_1 in
    let (t_3, _) = sub_word u.item_3 v.item_3 c_2 in items t_0 t_1 t_2 t_3

unfoldable pub get_add_inverse : U256Muldiv → U256Muldiv
unfolding eq sub add new
get_add_inverse u =
    if eq u (new 0 0) then new 0 0 else add (sub (new u128_max u128_max) u) (new 0 1)
