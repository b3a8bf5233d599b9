-- ===== src/State/TickArray/Search.antt =====
-- The search for the next initialised tick finds the nearest one in its direction, or none is
-- there.
use elysium_dex.Base.{
  ℕ, suc, ◌+◌, ◌-◌, ◌*◌, ◌/◌, ◌<◌, ◌≤◌, ◌≡◌, ◌∙◌, ◌↔◌, sym, subst, lt→ltb, leb→le, leb, ap, refl,
  Bool, true, false, not, Option, none, some, inl, inr, Bool-cases, arith, ◌==◌,
}
use elysium_dex.Base.Int.{
  ℤ, pos, negsuc, pos_part, neg_part, sub_ℕ, ◌+ℤ◌, ◌-ℤ◌, ◌≤ℤ◌, ◌<ℤ◌, +ℤ_comm, int_laws,
}
use elysium_dex.Base.Words.{add_i32, add_i32_exact, mul_i32_exact}
use elysium_dex.Errors.{ok}
use elysium_dex.State.Tick.{tick_array_size}
use elysium_dex.State.TickArray.{
  TickArray, search_left, search_right, search, tick_index_at, get_next_init_tick_index,
  in_search_range, tick_offset, get_offset,
}
use elysium_dex.State.TickArray.Offset.{
  IsTickArray, IsSmall, tick_offset-in_array, mul_pos, sum-Fits, index_bound, floor_div,
  range_distance, in_search_range-exact, get_offset-floor,
}
use native.Mathlib.Nat.{
  le-div_iff_mul-le, div-lt_iff_lt-mul, div-eq-sub-div, div-le_self, div-eq_of_lt,
}
use elysium_dex.State.TickArray.Loops.{
  init_at, Last, First, Returns, search_left-Last, search_right-First,
}

-- The tick index of an offset.
abbrev pub index_of : TickArray → ℕ → ℕ → ℤ
index_of a sp o = a.start_tick_index +ℤ pos (o * sp)

pub tick_index_at-exact :
    (a : TickArray) (sp o : ℕ)
    → IsTickArray a sp
    → o < tick_array_size
    → tick_index_at a sp o ≡ index_of a sp o
unfolding tick_index_at
tick_index_at-exact a sp o h ho =
    let s = a.start_tick_index in
    let small : o * sp ≤ 88 * 65536 = grind (arith, h.spacing_u16) in
    let e = mul_pos o sp in
    rw
      (
        mul_i32_exact (pos o) (pos sp) (rw e (omega arith)),
        e,
        add_i32_exact (pos (o * sp)) s
            (rw (+ℤ_comm (pos (o * sp)) s) (sum-Fits s (o * sp) h.start_small (omega arith))),
        +ℤ_comm (pos (o * sp)) s,
      )
      refl

-- What a search in direction `a_to_b` from the index `t` may answer: to the left the nearest
-- initialised tick at or below `t`, to the right the nearest above it.
abbrev pub Answers : TickArray → ℕ → ℤ → Bool → Option ℤ → Type 0
Answers a sp t true none =
    (j : ℕ) → j < tick_array_size → index_of a sp j ≤ℤ t → init_at a.ticks j ≡ false
Answers a sp t true (some i) =
    (o : ℕ) × (i ≡ index_of a sp o)
    × (o < tick_array_size)
    × (init_at a.ticks o ≡ true)
    × (i ≤ℤ t)
    × ((j : ℕ) → o < j → j < tick_array_size → index_of a sp j ≤ℤ t → init_at a.ticks j ≡ false)
Answers a sp t false none =
    (j : ℕ) → j < tick_array_size → t <ℤ index_of a sp j → init_at a.ticks j ≡ false
Answers a sp t false (some i) =
    (o : ℕ) × (i ≡ index_of a sp o)
    × (o < tick_array_size)
    × (init_at a.ticks o ≡ true)
    × (t <ℤ i)
    × ((j : ℕ) → j < o → t <ℤ index_of a sp j → init_at a.ticks j ≡ false)

-- The start of a search to the left: the offsets up to `q` are those of the ticks up to `t`.
LeftStart : TickArray → ℕ → ℤ → ℕ → Type 0
LeftStart a sp t q =
    (q < tick_array_size)
    × (tick_offset a t sp ≡ ok (pos q))
    × ((j : ℕ) → index_of a sp j ≤ℤ t ↔ j ≤ q)

left_start :
    (a : TickArray) (t : ℤ) (sp : ℕ)
    → IsTickArray a sp
    → IsSmall t
    → in_search_range a t sp false ≡ true
    → (q : ℕ) × LeftStart a sp t q
unfolding LeftStart
left_start a t sp h ht e =
    let (n, at_n, below, offset) = tick_offset-in_array a t sp h ht e in
    (
      n / sp,
      (
        below,
        offset,
        λ j. (
          λ le.
              (le-div_iff_mul-le h.spacing_pos).1
                (up_to j n (subst (λ x. index_of a sp j ≤ℤ x) at_n le)),
          λ le.
              subst (λ x. index_of a sp j ≤ℤ x) (sym at_n)
                (omega (int_laws, (le-div_iff_mul-le h.spacing_pos).0 le)),
        ),
      ),
    )
  where
    up_to : (j n : ℕ) → index_of a sp j ≤ℤ a.start_tick_index +ℤ pos n → j * sp ≤ n
    up_to j n le = omega int_laws

-- The start of a search to the right: the offsets from `q` on are those of the ticks above `t`.
RightStart : TickArray → ℕ → ℤ → ℕ → Type 0
RightStart a sp t q =
    (q < tick_array_size)
    × ((o : ℤ) × (tick_offset a t sp ≡ ok o) × (add_i32 o (pos 1) ≡ pos q))
    × ((j : ℕ) → t <ℤ index_of a sp j ↔ q ≤ j)

suc_mul : (j sp n : ℕ) → n < j * sp + sp → n < suc j * sp
suc_mul j sp n h = grind arith

suc_mul_back : (j sp n : ℕ) → n < suc j * sp → n < j * sp + sp
suc_mul_back j sp n h = grind arith

add_i32_one :
    (o : ℤ) (q : ℕ) → pos_part o + 1 ≡ q + neg_part o → q ≤ index_bound → add_i32 o (pos 1) ≡ pos q
unfolding ◌+ℤ◌
add_i32_one o q e h = add_i32_exact o (pos 1) (ground arith) ∙ ground arith

floor_next :
    (n sp : ℕ)
    → 0 < sp
    → n ≤ index_bound
    → add_i32 (floor_div (sub_ℕ n sp) sp) (pos 1) ≡ pos (n / sp)
floor_next n sp hs hn = elim (Bool-cases (leb sp n)) [
  | inl le ↦
      let e : (n - sp) / sp + 1 ≡ n / sp = sym (div-eq-sub-div hs (leb→le sp n le)) in
      rw le (
        add_i32_one (pos ((n - sp) / sp)) (n / sp) (omega (arith, e, div-le_self n sp))
          (omega arith))
  | inr gt ↦
      let lt : n < sp = ground arith in
      rw (gt, div-eq_of_lt lt)
        (add_i32_one (negsuc ((sp - n - 1) / sp)) 0
          (omega (arith, div-eq_of_lt {n = sp - n - 1} {m = sp} (omega arith))) (omega arith))
]

right_difference : (s : ℤ) (n sp : ℕ) → s -ℤ pos sp +ℤ pos n -ℤ s ≡ sub_ℕ n sp
unfolding ◌+ℤ◌ ◌-ℤ◌
right_difference s n sp = ground arith

right_start :
    (a : TickArray) (t : ℤ) (sp : ℕ)
    → IsTickArray a sp
    → IsSmall t
    → in_search_range a t sp true ≡ true
    → (q : ℕ) × RightStart a sp t q
unfolding RightStart tick_offset
right_start a t sp h ht e =
    let s = a.start_tick_index in
    let (n, at_n, below) =
      range_distance (s -ℤ pos sp) t (tick_array_size * sp)
        (rw (in_search_range-exact a t sp true h) at e) in
    let floor : get_offset t s sp ≡ floor_div (sub_ℕ n sp) sp =
      get_offset-floor t s sp h.spacing_pos ht h.start_small
      ∙ ap (λ d. floor_div d sp) (rw at_n (right_difference s n sp)) in
    let nonzero : (sp == 0) ≡ false = ground (arith, h.spacing_pos) in
    let bound : n ≤ index_bound = omega (arith, h.spacing_u16) in
    (
      n / sp,
      (
        (div-lt_iff_lt-mul h.spacing_pos).1 below,
        (floor_div (sub_ℕ n sp) sp, rw (nonzero, floor) refl, floor_next n sp h.spacing_pos bound),
        λ j. (
          λ lt. omega (
            arith,
            (div-lt_iff_lt-mul {k = sp} {x = n} {y = suc j} h.spacing_pos).1
                (suc_mul j sp n (up_to j n (subst (λ x. x <ℤ index_of a sp j) at_n lt))),
          ),
          λ le.
              subst (λ x. x <ℤ index_of a sp j) (sym at_n)
                (back j n (
                  omega (
                    arith,
                    suc_mul_back j sp n (
                        (div-lt_iff_lt-mul {k = sp} {x = n} {y = suc j} h.spacing_pos).0
                          (omega arith)),
                  ))),
        ),
      ),
    )
  where
    up_to : (j n : ℕ) → a.start_tick_index -ℤ pos sp +ℤ pos n <ℤ index_of a sp j → n < j * sp + sp
    up_to j n lt = omega int_laws

    back : (j n : ℕ) → n < j * sp + sp → a.start_tick_index -ℤ pos sp +ℤ pos n <ℤ index_of a sp j
    back j n lt = omega int_laws

get_next_left :
    (a : TickArray) (t : ℤ) (sp : ℕ)
    → IsTickArray a sp
    → IsSmall t
    → in_search_range a t sp false ≡ true
    → Returns (Answers a sp t true) (get_next_init_tick_index a t sp true)
unfolding LeftStart get_next_init_tick_index search
get_next_left a t sp h ht e =
    let (q, start) = left_start a t sp h ht e in
    let (q_lt, offset, starts) = start in
    let (r, er, last) = search_left-Last a.ticks (suc q) (omega (arith, h.size)) in
    finish q q_lt offset starts r er last
  where
    finish :
        (q : ℕ)
        → q < tick_array_size
        → tick_offset a t sp ≡ ok (pos q)
        → ((j : ℕ) → index_of a sp j ≤ℤ t ↔ j ≤ q)
        → (r : Option ℕ) → search_left a.ticks (suc q) ≡ ok r
        → Last a.ticks 0 (suc q) r
        → Returns (Answers a sp t true) (get_next_init_tick_index a t sp true)
    finish q q_lt offset starts none er last = (
      none,
      rw (e, offset, lt→ltb q 88 q_lt, er) refl,
      λ j j_lt le. last j (omega arith) (omega (arith, (starts j).0 le)),
    )
    finish q q_lt offset starts (some o) er (from, to, there, above) = (
      some (tick_index_at a sp o),
      rw (e, offset, lt→ltb q 88 q_lt, er) refl,
      (
        o,
        tick_index_at-exact a sp o h (omega arith),
        omega arith,
        there,
        rw (tick_index_at-exact a sp o h (omega arith)) ((starts o).1 (omega arith)),
        λ j lo hi le. above j lo (omega (arith, (starts j).0 le)),
      ),
    )

get_next_right :
    (a : TickArray) (t : ℤ) (sp : ℕ)
    → IsTickArray a sp
    → IsSmall t
    → in_search_range a t sp true ≡ true
    → Returns (Answers a sp t false) (get_next_init_tick_index a t sp false)
unfolding RightStart get_next_init_tick_index search
get_next_right a t sp h ht e =
    let (q, start) = right_start a t sp h ht e in
    let (q_lt, offset, starts) = start in
    let (off, e_off, e_next) = offset in
    let (r, er, first) =
      search_right-First (tick_array_size - q) a.ticks q (omega (arith, h.size)) in
    finish q q_lt off e_off e_next starts r er first
  where
    finish :
        (q : ℕ)
        → q < tick_array_size
        → (off : ℤ) → tick_offset a t sp ≡ ok off
        → add_i32 off (pos 1) ≡ pos q
        → ((j : ℕ) → t <ℤ index_of a sp j ↔ q ≤ j)
        → (r : Option ℕ) → search_right (tick_array_size - q) a.ticks q ≡ ok r
        → First a.ticks q (q + (tick_array_size - q)) r
        → Returns (Answers a sp t false) (get_next_init_tick_index a t sp false)
    finish q q_lt off e_off e_next starts none er first = (
      none,
      rw (e, e_off, e_next, lt→ltb q 88 q_lt, er) refl,
      λ j j_lt lt. first j ((starts j).0 lt) (omega arith),
    )
    finish q q_lt off e_off e_next starts (some o) er (from, to, there, below) = (
      some (tick_index_at a sp o),
      rw (e, e_off, e_next, lt→ltb q 88 q_lt, er) refl,
      (
        o,
        tick_index_at-exact a sp o h (omega arith),
        omega arith,
        there,
        rw (tick_index_at-exact a sp o h (omega arith)) ((starts o).1 from),
        λ j hi lt. below j ((starts j).0 lt) hi,
      ),
    )

-- For an index in the array's search range the search returns, without an error or a panic, the
-- nearest initialised tick in its direction, or `None` exactly where there is none; `a_to_b`
-- searches to the left from the index on, the other direction to the right of it.
pub get_next_init_tick_index-Answers :
    (a : TickArray) (t : ℤ) (sp : ℕ) (a_to_b : Bool)
    → IsTickArray a sp
    → IsSmall t
    → in_search_range a t sp (not a_to_b) ≡ true
    → Returns (Answers a sp t a_to_b) (get_next_init_tick_index a t sp a_to_b)
get_next_init_tick_index-Answers a t sp true h ht e = get_next_left a t sp h ht e
get_next_init_tick_index-Answers a t sp false h ht e = get_next_right a t sp h ht e
