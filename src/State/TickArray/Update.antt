-- ===== src/State/TickArray/Update.antt =====
-- Reading a tick after a write: the written one holds the update, every other is as before.
use elysium_dex.Base.{
  ℕ, suc, ◌+◌, ◌-◌, ◌≤◌, ap, sym, List, ◌*◌, ◌/◌, ◌%◌, ◌<◌, ◌≡◌, ◌≢◌, ◌∙◌, refl, Bool, true, false,
  not, Bool-cases, ◌⊎◌, inl, inr, arith, get_elem?-some, get_elem?-set_self, get_elem?-set_ne,
  length-set, set, ◌==◌, ◌&&◌,
}
use elysium_dex.Base.Int.{ℤ, pos, negsuc, ◌+ℤ◌, eqb_ℤ, trem, int_laws, pos_part, neg_part}
use elysium_dex.Errors.{Result, ok, err, ◌>>=◌, tick_not_found}
use elysium_dex.State.Tick.{
  Tick, TickUpdate, update, check_is_usable_tick, check_is_out_of_bounds, tick_array_size,
}
use elysium_dex.State.TickArray.{
  TickArray, get_tick, update_tick, checked_offset, check_in_array_bounds, in_search_range,
  tick_offset,
}
use elysium_dex.State.TickArray.Offset.{IsTickArray, IsSmall, tick_offset-in_array}
use native.Mathlib.Nat.{mod-add-mod, mod-eq_of_lt, div-add-mod, mod-lt}
use Prim.Native.Nat.add
use native.Mathlib.Decide.{ℕ_discrete}

-- The guards of `get_tick` and `update_tick`, as one test.
abbrev pub holds : TickArray → ℤ → ℕ → Bool
holds a t sp =
    in_search_range a t sp false
    && (not (check_is_out_of_bounds t) && eqb_ℤ (trem t (pos sp)) (pos 0))

-- The guards and the offset of `get_tick` and `update_tick`.
abbrev pub Located : TickArray → ℤ → ℕ → Result ℕ → Type 0
Located a t sp r =
    ((holds a t sp ≡ false) × (r ≡ err tick_not_found))
    ⊎ ((n : ℕ) × (holds a t sp ≡ true)
        × (t ≡ a.start_tick_index +ℤ pos n)
        × (n / sp < tick_array_size)
        × (r ≡ ok (n / sp)))

pub checked_offset-Located :
    (a : TickArray) (t : ℤ) (sp : ℕ)
    → IsTickArray a sp
    → IsSmall t
    → Located a t sp (checked_offset a t sp)
unfolding checked_offset check_in_array_bounds check_is_usable_tick
checked_offset-Located a t sp h ht = elim (Bool-cases (in_search_range a t sp false)) [
  | inl inside ↦
      let (n, at_n, below, offset) = tick_offset-in_array a t sp h ht inside in
      let nonzero : (sp == 0) ≡ false = ground (arith, h.spacing_pos) in
      elim (Bool-cases (check_is_out_of_bounds t)) [
        | inl out ↦ inl (rw (inside, out) refl, rw (inside, out) refl)
        | inr within ↦ elim (Bool-cases (eqb_ℤ (trem t (pos sp)) (pos 0))) [
          | inl usable ↦ inr (
            n,
            rw (inside, within) usable,
            at_n,
            below,
            rw (inside, within, nonzero) (rw (usable, offset) refl),
          )
          | inr unusable ↦
              inl (rw (inside, within) unusable, rw (inside, within, nonzero) (rw unusable refl))
        ]
      ]
  | inr outside ↦ inl (rw outside refl, rw outside refl)
]

-- Two multiples of `sp` that are less than `sp` apart are equal.
mod_gap : (x y d sp : ℕ) → x % sp ≡ 0 → y % sp ≡ 0 → x ≡ y + d → d < sp → d ≡ 0
mod_gap x y d sp hx hy e h =
    let same : (y % sp + d) % sp ≡ (y + d) % sp = mod-add-mod y sp d in
    let low : d % sp ≡ d = mod-eq_of_lt h in cc (add.zero d)

small_multiple : (x sp : ℕ) → x % sp ≡ 0 → x < sp → x ≡ 0
small_multiple x sp e h = cc (mod-eq_of_lt h)

multiples_gap :
    (t t' : ℤ) (d sp : ℕ)
    → eqb_ℤ (trem t (pos sp)) (pos 0) ≡ true
    → eqb_ℤ (trem t' (pos sp)) (pos 0) ≡ true
    → t ≡ t' +ℤ pos d
    → d < sp
    → d ≡ 0
unfolding ◌+ℤ◌
multiples_gap (pos n) (pos n') d sp ht ht' e h =
    mod_gap n n' d sp (ground arith) (ground arith) (ground arith) h
multiples_gap (pos n) (negsuc m') d sp ht ht' e h =
    let below : suc m' ≤ d = ground arith in
    let e0 : suc m' ≡ 0 = small_multiple (suc m') sp (ground arith) (omega arith) in
    absurd (omega arith)
multiples_gap (negsuc m) (pos n') d sp ht ht' e h = absurd (ground arith)
multiples_gap (negsuc m) (negsuc m') d sp ht ht' e h =
    mod_gap (suc m') (suc m) d sp (ground arith) (ground arith) (ground arith) h

-- Two ticks that an array holds have one offset only if they are one.
same_offset :
    (s t t' : ℤ) (n n' sp : ℕ)
    → 0 < sp
    → eqb_ℤ (trem t (pos sp)) (pos 0) ≡ true
    → eqb_ℤ (trem t' (pos sp)) (pos 0) ≡ true
    → t ≡ s +ℤ pos n
    → t' ≡ s +ℤ pos n'
    → n / sp ≡ n' / sp
    → t ≡ t'
same_offset s t t' n n' sp h ht ht' e e' same = elim (le_cases n n') [
  | inl le ↦
      let d : ℕ = n' - n in
      let none : d ≡ 0 =
        multiples_gap t' t d sp ht' ht (apart s t' t n' n e' e le) (close n n' sp h same le) in
      rw (e, e') (ap (λ k. s +ℤ pos k) (omega arith))
  | inr le ↦
      let d : ℕ = n - n' in
      let none : d ≡ 0 =
        multiples_gap t t' d sp ht ht' (apart s t t' n n' e e' le)
          (close n' n sp h (sym same) le) in
      rw (e, e') (ap (λ k. s +ℤ pos k) (omega arith))
]
  where
    le_cases : (n n' : ℕ) → (n ≤ n') ⊎ (n' ≤ n)
    le_cases n n' = omega arith

    apart :
        (s t t' : ℤ) (n n' : ℕ)
        → t ≡ s +ℤ pos n
        → t' ≡ s +ℤ pos n'
        → n' ≤ n
        → t ≡ t' +ℤ pos (n - n')
    apart s t t' n n' e e' le = rw (e, e') (omega int_laws)

    close : (n n' sp : ℕ) → 0 < sp → n / sp ≡ n' / sp → n ≤ n' → n' - n < sp
    close n n' sp h same le =
        omega (arith, ap (λ (q : ℕ). sp * q) same, div-add-mod n sp, div-add-mod n' sp, mod-lt n' h)

holds-usable :
    (a : TickArray) (t : ℤ) (sp : ℕ) → holds a t sp ≡ true → eqb_ℤ (trem t (pos sp)) (pos 0) ≡ true
holds-usable a t sp h = ground arith

-- Writing ticks leaves the guards as they are.
checked_offset-ticks :
    (a : TickArray) (ts : List Tick) (t : ℤ) (sp : ℕ)
    → checked_offset (record a { ticks = ts }) t sp ≡ checked_offset a t sp
unfolding checked_offset check_in_array_bounds in_search_range tick_offset
checked_offset-ticks a ts t sp = refl

-- Writing the tick at an index that the array holds succeeds and keeps the array well formed.
-- Afterwards that index reads the tick with the update applied, and every other index reads, or
-- fails, as before.
pub get_tick-update_tick :
    (a : TickArray) (t : ℤ) (sp : ℕ) (u : TickUpdate)
    → IsTickArray a sp
    → IsSmall t
    → holds a t sp ≡ true
    → (a' : TickArray) × (update_tick a t sp u ≡ ok a')
      × IsTickArray a' sp
      × ((t' : ℤ)
          → IsSmall t'
          → ((t ≡ t') × (get_tick a' t' sp ≡ (get_tick a t sp >>= λ k. ok (update k u))))
            ⊎ ((t ≢ t') × (get_tick a' t' sp ≡ get_tick a t' sp)))
unfolding get_tick update_tick
get_tick-update_tick a t sp u h ht held = elim (checked_offset-Located a t sp h ht) [
  | inl (free, _) ↦ absurd (true_false held free)
  | inr (n, _, at_n, below, off) ↦
      let (k, at_k) = get_elem?-some a.ticks (n / sp) (omega (arith, h.size)) in
      let ts = set a.ticks (n / sp) (update k u) in
      let a' : TickArray = record a { ticks = ts } in
      (
        a',
        rw (off, at_k) refl,
        record {
          size = length-set a.ticks (n / sp) (update k u) ∙ h.size;
          start_small = h.start_small;
          spacing_pos = h.spacing_pos;
          spacing_u16 = h.spacing_u16;
        },
        λ t' ht'. elim (checked_offset-Located a t' sp h ht') [
          | inl (free, off') ↦
              inr
                (λ e. true_false held (rw e free), rw (checked_offset-ticks a ts t' sp, off') refl)
          | inr (n', held', at_n', below', off') ↦ elim (ℕ_discrete (n / sp) (n' / sp)) [
            | yes same ↦ inl (
              same_offset a.start_tick_index t t' n n' sp h.spacing_pos (holds-usable a t sp held)
                  (holds-usable a t' sp held') at_n at_n' same,
              rw
                  (
                    checked_offset-ticks a ts t' sp,
                    off',
                    off,
                    at_k,
                    ← same,
                    get_elem?-set_self a.ticks (n / sp) (update k u) (omega (arith, h.size)),
                  )
                  refl,
            )
            | no differ ↦ inr (
              λ e.
                  differ (
                    ap (λ x. x / sp)
                      (sum_injective a.start_tick_index n n' (sym at_n ∙ e ∙ at_n'))),
              rw
                  (
                    checked_offset-ticks a ts t' sp,
                    off',
                    get_elem?-set_ne a.ticks (n / sp) (n' / sp) (update k u) differ,
                  )
                  refl,
            )
          ]
        ],
      )
]
  where
    true_false : {b : Bool} → b ≡ true → b ≡ false → ⊥
    true_false h k = cc

    sum_injective : (s : ℤ) (n n' : ℕ) → s +ℤ pos n ≡ s +ℤ pos n' → n ≡ n'
    sum_injective s n n' e = omega (int_laws, ap pos_part e, ap neg_part e)
