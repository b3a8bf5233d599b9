-- ===== src/State/TickArray/Offset.antt =====
-- The offset of a tick index in an array: floor division, in range where the array holds the index.
use elysium_dex.Base.{
  ℕ, zero, suc, ◌+◌, ◌-◌, ◌*◌, ◌/◌, ◌%◌, ◌<◌, ◌≤◌, ◌≡◌, ◌∙◌, refl, Bool, true, false, arith, length,
  ◌==◌, if◌then◌else◌, ◌&&◌, ◌||◌, ◌⊎◌, inl, inr, ap, sym,
}
use elysium_dex.Base.Int.{
  ℤ, pos, negsuc, pos_part, neg_part, magnitude, ◌+ℤ◌, ◌-ℤ◌, ◌*ℤ◌, ◌≤ℤ◌, ◌<ℤ◌, leb_ℤ, ltb_ℤ, tdiv,
  trem, -ℤ_parts, +ℤ_parts, eq_of_parts, int_laws,
}
use elysium_dex.Base.Words.{i32_max, Fits, sub_i32, sub_i32_exact, add_i32_exact, mul_i32_exact}
use elysium_dex.Errors.{ok}
use elysium_dex.State.Tick.{ticks_in_array, tick_array_size}
use elysium_dex.State.TickArray.{TickArray, get_offset, tick_offset, in_search_range}
use native.Mathlib.Nat.{div-add-mod, mod-lt, div-eq_of_lt-le, div-le_self, div-lt_iff_lt-mul}

-- The bound on indices below which no `i32` of this module wraps. It is far above the largest
-- tick index and the extent of an array, 443636 and 88 * 65535.
abbrev pub index_bound : ℕ
index_bound = 100_000_000

abbrev pub IsSmall : ℤ → Type 0
IsSmall t = magnitude t ≤ index_bound

-- An array as the program stores it, with the tick spacing of its pool, which is a `u16`.
pub record IsTickArray (a : TickArray) (tick_spacing : ℕ) : Type 0 where
  pub size : length a.ticks ≡ tick_array_size
  pub start_small : IsSmall a.start_tick_index
  pub spacing_pos : 0 < tick_spacing
  pub spacing_u16 : tick_spacing < 65536

-- Division rounded down.
abbrev pub floor_div : ℤ → ℕ → ℤ
floor_div (pos n) d = pos (n / d)
floor_div (negsuc n) d = negsuc (n / d)

-- The next number's quotient is one more where the remainder comes back to zero.
div_suc_carry : (n d q : ℕ) → 0 < d → suc n ≡ d * suc q → n / d ≡ q
div_suc_carry n d q h e = div-eq_of_lt-le d (grind arith) (grind arith)

div_suc_keep : (n d q r : ℕ) → suc r < d → suc n ≡ d * q + suc r → n / d ≡ q
div_suc_keep n d q r h e = div-eq_of_lt-le d (grind arith) (grind arith)

div_suc :
    (n d q r : ℕ)
    → 0 < d
    → r < d
    → suc n ≡ d * q + r
    → ((r ≡ 0) × (q ≡ suc (n / d))) ⊎ ((0 < r) × (q ≡ n / d))
div_suc n d zero zero hd h e = absurd (omega arith)
div_suc n d (suc q) zero hd h e = inl (refl, ap suc (sym (div_suc_carry n d q hd (omega arith))))
div_suc n d q (suc r) hd h e = inr (omega arith, sym (div_suc_keep n d q r h e))

-- `get_offset`, from the difference of the indices on.
offset_of_difference : ℤ → ℕ → ℤ
offset_of_difference lhs d =
    if (ltb_ℤ (pos 0) (trem lhs (pos d)) && ltb_ℤ (pos d) (pos 0))
      || (ltb_ℤ (trem lhs (pos d)) (pos 0) && ltb_ℤ (pos 0) (pos d))
    then sub_i32 (tdiv lhs (pos d)) (pos 1)
    else tdiv lhs (pos d)

offset_of_difference-floor :
    (lhs : ℤ) (d : ℕ)
    → 0 < d
    → magnitude lhs ≤ 2 * index_bound
    → offset_of_difference lhs d ≡ floor_div lhs d
unfolding offset_of_difference
offset_of_difference-floor (pos n) d hd h = ground arith
offset_of_difference-floor (negsuc n) d hd h = ground (
  arith,
  div_suc n d (suc n / d) (suc n % d) hd (mod-lt (suc n) hd) (sym (div-add-mod (suc n) d)),
  div-le_self (suc n) d,
  sub_i32_exact (tdiv (negsuc n) (pos d)) (pos 1),
  -ℤ_parts (tdiv (negsuc n) (pos d)) (pos 1),
  eq_of_parts (tdiv (negsuc n) (pos d) -ℤ pos 1) (floor_div (negsuc n) d),
)

magnitude-Fits : (a : ℤ) → magnitude a ≤ 2 * index_bound → Fits i32_max a
magnitude-Fits (pos n) h = omega arith
magnitude-Fits (negsuc n) h = omega arith

small_difference : (t s : ℤ) → IsSmall t → IsSmall s → magnitude (t -ℤ s) ≤ 2 * index_bound
unfolding ◌-ℤ◌
small_difference t s ht hs = ground arith

-- `get_offset` is floor division of the difference, for indices within the bound and a spacing that
-- is not zero.
pub get_offset-floor :
    (t s : ℤ) (d : ℕ) → 0 < d → IsSmall t → IsSmall s → get_offset t s d ≡ floor_div (t -ℤ s) d
unfolding get_offset offset_of_difference
get_offset-floor t s d hd ht hs =
    rw (sub_i32_exact t s (magnitude-Fits (t -ℤ s) (small_difference t s ht hs)))
      (offset_of_difference-floor (t -ℤ s) d hd (small_difference t s ht hs))

pub mul_pos : (a b : ℕ) → pos a *ℤ pos b ≡ pos (a * b)
unfolding ◌*ℤ◌
mul_pos a b = ground arith

pub ticks_in_array-exact : (sp : ℕ) → sp < 65536 → ticks_in_array sp ≡ pos (tick_array_size * sp)
unfolding ticks_in_array
ticks_in_array-exact sp h =
    let e = mul_pos 88 sp in mul_i32_exact (pos 88) (pos sp) (rw e (omega arith)) ∙ e

-- The least index that `in_search_range` accepts; the range has the length of the array.
abbrev pub range_start : TickArray → ℕ → Bool → ℤ
range_start a sp shifted = if shifted then a.start_tick_index -ℤ pos sp else a.start_tick_index

pub sum-Fits : (s : ℤ) (n : ℕ) → IsSmall s → n ≤ index_bound → Fits i32_max (s +ℤ pos n)
unfolding ◌+ℤ◌
sum-Fits s n hs hn = ground arith

difference-Fits : (s : ℤ) (n : ℕ) → IsSmall s → n ≤ index_bound → Fits i32_max (s -ℤ pos n)
unfolding ◌-ℤ◌
difference-Fits s n hs hn = ground arith

shifted_end-Fits :
    (s : ℤ) (n k : ℕ) → IsSmall s → n ≤ index_bound → k ≤ n → Fits i32_max (s +ℤ pos n -ℤ pos k)
unfolding ◌+ℤ◌ ◌-ℤ◌
shifted_end-Fits s n k hs hn hk = ground arith

shifted_end : (s : ℤ) (n k : ℕ) → s +ℤ pos n -ℤ pos k ≡ s -ℤ pos k +ℤ pos n
shifted_end s n k = omega int_laws

-- For an array as it is stored, `in_search_range` is the test for an interval of `i32` without a
-- wrap-around: from the start, or one spacing before it where shifted, up to the array's extent.
pub in_search_range-exact :
    (a : TickArray) (t : ℤ) (sp : ℕ) (shifted : Bool)
    → IsTickArray a sp
    → in_search_range a t sp shifted
      ≡ leb_ℤ (range_start a sp shifted) t
        && ltb_ℤ t (range_start a sp shifted +ℤ pos (tick_array_size * sp))
unfolding in_search_range
in_search_range-exact a t sp false h =
    rw
      (
        ticks_in_array-exact sp h.spacing_u16,
        add_i32_exact a.start_tick_index (pos (88 * sp))
            (sum-Fits a.start_tick_index (88 * sp) h.start_small (omega (arith, h.spacing_u16))),
      )
      refl
in_search_range-exact a t sp true h =
    let s = a.start_tick_index in
    let extent : 88 * sp ≤ index_bound = omega (arith, h.spacing_u16) in
    rw
      (
        ticks_in_array-exact sp h.spacing_u16,
        add_i32_exact s (pos (88 * sp)) (sum-Fits s (88 * sp) h.start_small extent),
        sub_i32_exact s (pos sp)
            (difference-Fits s sp h.start_small (omega (arith, h.spacing_u16))),
        sub_i32_exact (s +ℤ pos (88 * sp)) (pos sp)
            (shifted_end-Fits s (88 * sp) sp h.start_small extent (omega arith)),
        shifted_end s (88 * sp) sp,
      )
      refl

pub difference-sum : (s : ℤ) (n : ℕ) → s +ℤ pos n -ℤ s ≡ pos n
difference-sum s n = omega int_laws

-- An index at or above `s` and below `s + k` lies fewer than `k` above `s`.
pub range_distance :
    (s t : ℤ) (k : ℕ)
    → (leb_ℤ s t && ltb_ℤ t (s +ℤ pos k)) ≡ true
    → (n : ℕ) × (t ≡ s +ℤ pos n) × (n < k)
range_distance s t k h =
    let n : ℕ = pos_part t + neg_part s - (pos_part s + neg_part t) in
    let low : s ≤ℤ t = ground arith in
    let high : t <ℤ s +ℤ pos k = ground arith in
    (n, omega int_laws, omega (arith, low, high, +ℤ_parts s (pos k)))

-- Where an array as it is stored holds an index within the bound, `tick_offset` succeeds with an
-- offset below 88 whose tick is the last at or below the index.
pub tick_offset-in_array :
    (a : TickArray) (t : ℤ) (sp : ℕ)
    → IsTickArray a sp
    → IsSmall t
    → in_search_range a t sp false ≡ true
    → (n : ℕ) × (t ≡ a.start_tick_index +ℤ pos n)
      × (n / sp < tick_array_size)
      × (tick_offset a t sp ≡ ok (pos (n / sp)))
unfolding tick_offset
tick_offset-in_array a t sp h ht e =
    let s = a.start_tick_index in
    let (n, at_n, below) =
      range_distance s t (tick_array_size * sp) (rw (in_search_range-exact a t sp false h) at e) in
    let floor : get_offset t s sp ≡ pos (n / sp) =
      get_offset-floor t s sp h.spacing_pos ht h.start_small ∙ rw (at_n, difference-sum s n) refl in
    let nonzero : (sp == 0) ≡ false = ground (arith, h.spacing_pos) in
    (n, at_n, (div-lt_iff_lt-mul h.spacing_pos).1 below, rw (nonzero, floor) refl)
