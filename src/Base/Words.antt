-- ===== src/Base/Words.antt =====
-- Rust's machine integers. An unsigned word is a number, a signed one an integer. The workspace's
-- Cargo.toml sets no `overflow-checks`, so the release build's `+`, `-` and `*` wrap.
use Prim.Native.Nat.{ℕ, suc, ◌+◌, ◌-◌, ◌*◌, ◌/◌, ◌%◌, ◌^◌, ◌≤◌}
use mathlib.Core.Path.{◌≡◌}
use mathlib.Core.Bool.{Bool, ◌&&◌}
use mathlib.Core.Option.{Option, none, some}
use native.Mathlib.Omega.{arith}
use native.Mathlib.Nat.{mod-eq_of_lt}
use elysium_dex.Base.Tests.{ltb, leb, if◌then◌else◌}
use elysium_dex.Base.Int.{ℤ, pos, negsuc, pos_part, neg_part, negate, ◌+ℤ◌, ◌-ℤ◌, ◌*ℤ◌}

abbrev pub u64_mod : ℕ
u64_mod = 2 ^ 64

abbrev pub u128_mod : ℕ
u128_mod = 2 ^ 128

abbrev pub u64_max : ℕ
u64_max = 2 ^ 64 - 1

abbrev pub u128_max : ℕ
u128_max = 2 ^ 128 - 1

-- `wrapping_add` and `wrapping_sub` at `u64` and `u128`; also `+` and `-` in the release build.
abbrev pub add_u64 : ℕ → ℕ → ℕ
add_u64 a b = (a + b) % u64_mod

abbrev pub sub_u64 : ℕ → ℕ → ℕ
sub_u64 a b = (a + (u64_mod - b)) % u64_mod

abbrev pub add_u128 : ℕ → ℕ → ℕ
add_u128 a b = (a + b) % u128_mod

abbrev pub sub_u128 : ℕ → ℕ → ℕ
sub_u128 a b = (a + (u128_mod - b)) % u128_mod

abbrev pub mul_u128 : ℕ → ℕ → ℕ
mul_u128 a b = (a * b) % u128_mod

-- `x as u64`
abbrev pub as_u64 : ℕ → ℕ
as_u64 x = x % u64_mod

abbrev pub checked_add_u64 : ℕ → ℕ → Option ℕ
checked_add_u64 a b = if ltb (a + b) u64_mod then some (a + b) else none

abbrev pub checked_add_u128 : ℕ → ℕ → Option ℕ
checked_add_u128 a b = if ltb (a + b) u128_mod then some (a + b) else none

-- The same at every width.
abbrev pub checked_sub : ℕ → ℕ → Option ℕ
checked_sub a b = if leb b a then some (a - b) else none

abbrev pub checked_mul_u128 : ℕ → ℕ → Option ℕ
checked_mul_u128 a b = if ltb (a * b) u128_mod then some (a * b) else none

-- The signed word of `suc top + suc top` patterns that an integer wraps to; `top` is its maximum.
abbrev pub wrap_signed : ℕ → ℤ → ℤ
wrap_signed top (pos n) =
    let m = n % (2 * suc top) in if leb m top then pos m else negsuc (2 * suc top - m - 1)
wrap_signed top (negsuc n) =
    let m = n % (2 * suc top) in if leb m top then negsuc m else pos (2 * suc top - m - 1)

abbrev pub i32_max : ℕ
i32_max = 2 ^ 31 - 1

abbrev pub i128_max : ℕ
i128_max = 2 ^ 127 - 1

-- An integer that a signed word with maximum `top` holds.
abbrev pub Fits : ℕ → ℤ → Type 0
Fits top a = (pos_part a ≤ top) × (neg_part a ≤ suc top)

abbrev pub fits : ℕ → ℤ → Bool
fits top a = leb (pos_part a) top && leb (neg_part a) (suc top)

-- The release build's `+`, `-` and `*` at `i32`.
unfoldable pub add_i32 : ℤ → ℤ → ℤ
add_i32 a b = wrap_signed i32_max (a +ℤ b)

unfoldable pub sub_i32 : ℤ → ℤ → ℤ
sub_i32 a b = wrap_signed i32_max (a -ℤ b)

unfoldable pub mul_i32 : ℤ → ℤ → ℤ
mul_i32 a b = wrap_signed i32_max (a *ℤ b)

-- The release build's operators at `i128`.
unfoldable pub add_i128 : ℤ → ℤ → ℤ
add_i128 a b = wrap_signed i128_max (a +ℤ b)

unfoldable pub sub_i128 : ℤ → ℤ → ℤ
sub_i128 a b = wrap_signed i128_max (a -ℤ b)

unfoldable pub mul_i128 : ℤ → ℤ → ℤ
mul_i128 a b = wrap_signed i128_max (a *ℤ b)

unfoldable pub neg_i128 : ℤ → ℤ
neg_i128 a = wrap_signed i128_max (negate a)

-- `x >> k` on a signed word keeps the sign.
abbrev pub shr_ℤ : ℤ → ℕ → ℤ
shr_ℤ (pos n) k = pos (n / 2 ^ k)
shr_ℤ (negsuc n) k = negsuc (n / 2 ^ k)

abbrev pub checked_add_i128 : ℤ → ℤ → Option ℤ
checked_add_i128 a b = let s = a +ℤ b in if fits i128_max s then some s else none

abbrev pub checked_sub_i128 : ℤ → ℤ → Option ℤ
checked_sub_i128 a b = let s = a -ℤ b in if fits i128_max s then some s else none

-- A signed word's two's complement pattern, `x as u128`.
abbrev pub as_u128 : ℤ → ℕ
as_u128 (pos n) = n % u128_mod
as_u128 (negsuc n) = u128_mod - 1 - n % u128_mod

pub wrap_signed-eq_of_Fits : (top : ℕ) (a : ℤ) → Fits top a → wrap_signed top a ≡ a
wrap_signed-eq_of_Fits top (pos n) h =
    ground (arith, mod-eq_of_lt {n = n} {m = 2 * suc top} (omega arith))
wrap_signed-eq_of_Fits top (negsuc n) h =
    ground (arith, mod-eq_of_lt {n = n} {m = 2 * suc top} (omega arith))

pub add_i32_exact : (a b : ℤ) → Fits i32_max (a +ℤ b) → add_i32 a b ≡ a +ℤ b
unfolding add_i32
add_i32_exact a b h = wrap_signed-eq_of_Fits i32_max (a +ℤ b) h

pub sub_i32_exact : (a b : ℤ) → Fits i32_max (a -ℤ b) → sub_i32 a b ≡ a -ℤ b
unfolding sub_i32
sub_i32_exact a b h = wrap_signed-eq_of_Fits i32_max (a -ℤ b) h

pub mul_i32_exact : (a b : ℤ) → Fits i32_max (a *ℤ b) → mul_i32 a b ≡ a *ℤ b
unfolding mul_i32
mul_i32_exact a b h = wrap_signed-eq_of_Fits i32_max (a *ℤ b) h
