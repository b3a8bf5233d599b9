-- ===== src/State/TickArray.antt =====
-- programs/elysium/src/state/tick.rs: an array of 88 ticks, and the search for an initialised one.
pub mod Update
pub mod Loops
pub mod Search
pub mod Offset
use elysium_dex.Base.{
  ℕ, zero, suc, ◌+◌, ◌-◌, Bool, false, not, ◌&&◌, ◌||◌, Option, none, some, List, get_elem?, set,
  replicate, ltb, ◌==◌, if◌then◌else◌,
}
use elysium_dex.Base.Int.{ℤ, pos, negsuc, ltb_ℤ, leb_ℤ, tdiv, trem}
use elysium_dex.Base.Words.{add_i32, sub_i32, mul_i32}
use elysium_dex.Errors.{
  Result, ok, err, unwrap, fail_if, ◌>>=◌, ◌>>◌, invalid_start_tick, invalid_tick_array_sequence,
  invalid_tick_spacing, tick_not_found,
}
use elysium_dex.State.Tick.{
  Tick, TickUpdate, default_tick, update, check_is_usable_tick, check_is_valid_start_tick,
  ticks_in_array, tick_array_size, max_tick_index, min_tick_index,
}

pub record TickArray : Type 0 where
  pub start_tick_index : ℤ
  pub ticks : List Tick
  pub pool : ℕ

-- `TickArray::default()`
abbrev pub default_tick_array : TickArray
default_tick_array = record {
  start_tick_index = pos 0;
  ticks = replicate tick_array_size default_tick;
  pool = 0;
}

-- Floor division, from Rust's truncated one.
unfoldable pub get_offset : ℤ → ℤ → ℕ → ℤ
unfolding sub_i32
get_offset tick_index start_tick_index tick_spacing =
    let lhs = sub_i32 tick_index start_tick_index in
    let rhs = pos tick_spacing in
    let d = tdiv lhs rhs in
    let r = trem lhs rhs in
    if (ltb_ℤ (pos 0) r && ltb_ℤ rhs (pos 0)) || (ltb_ℤ r (pos 0) && ltb_ℤ (pos 0) rhs)
    then sub_i32 d (pos 1)
    else d

unfoldable pub tick_offset : TickArray → ℤ → ℕ → Result ℤ
unfolding get_offset
tick_offset array tick_index tick_spacing =
    if tick_spacing == 0
    then err invalid_tick_spacing
    else ok (get_offset tick_index array.start_tick_index tick_spacing)

unfoldable pub in_search_range : TickArray → ℤ → ℕ → Bool → Bool
unfolding add_i32 sub_i32 ticks_in_array
in_search_range array tick_index tick_spacing shifted =
    let start = array.start_tick_index in
    let end = add_i32 start (ticks_in_array tick_spacing) in
    let lower = if shifted then sub_i32 start (pos tick_spacing) else start in
    let upper = if shifted then sub_i32 end (pos tick_spacing) else end in
    leb_ℤ lower tick_index && ltb_ℤ tick_index upper

unfoldable pub check_in_array_bounds : TickArray → ℤ → ℕ → Bool
unfolding in_search_range
check_in_array_bounds array tick_index tick_spacing =
    in_search_range array tick_index tick_spacing false

unfoldable pub is_min_tick_array : TickArray → Bool
is_min_tick_array array = leb_ℤ array.start_tick_index min_tick_index

unfoldable pub is_max_tick_array : TickArray → ℕ → Bool
unfolding add_i32 ticks_in_array
is_max_tick_array array tick_spacing =
    ltb_ℤ max_tick_index (add_i32 array.start_tick_index (ticks_in_array tick_spacing))

-- The loop that moves left: the initialised tick with the greatest offset below `n`.
unfoldable pub search_left : List Tick → ℕ → Result (Option ℕ)
search_left ticks zero = ok none
search_left ticks (suc offset) = do
  tick ← unwrap (get_elem? ticks offset)
  let rest = search_left ticks offset
  if tick.initialized then ok (some offset) else rest

-- The loop that moves right, from `offset` with `rounds` offsets left below `TICK_ARRAY_SIZE`.
unfoldable pub search_right : ℕ → List Tick → ℕ → Result (Option ℕ)
search_right zero ticks offset = ok none
search_right (suc rounds) ticks offset = do
  tick ← unwrap (get_elem? ticks offset)
  let rest = search_right rounds ticks (offset + 1)
  if tick.initialized then ok (some offset) else rest

-- The loop `while curr_offset >= 0 && curr_offset < TICK_ARRAY_SIZE` from the first offset.
unfoldable pub search : List Tick → ℤ → Bool → Result (Option ℕ)
unfolding search_left search_right
search ticks (negsuc n) a_to_b = ok none
search ticks (pos n) a_to_b =
    if ltb n tick_array_size
    then (if a_to_b then search_left ticks (suc n) else search_right (tick_array_size - n) ticks n)
    else ok none

-- `(curr_offset * tick_spacing as i32) + self.start_tick_index`
unfoldable pub tick_index_at : TickArray → ℕ → ℕ → ℤ
unfolding add_i32 mul_i32
tick_index_at array tick_spacing offset =
    add_i32 (mul_i32 (pos offset) (pos tick_spacing)) array.start_tick_index

unfoldable pub get_next_init_tick_index : TickArray → ℤ → ℕ → Bool → Result (Option ℤ)
get_next_init_tick_index array tick_index tick_spacing a_to_b = do
  fail_if (not (in_search_range array tick_index tick_spacing (not a_to_b)))
      invalid_tick_array_sequence
  offset ← tick_offset array tick_index tick_spacing
  found ← search array.ticks (if a_to_b then offset else add_i32 offset (pos 1)) a_to_b
  ok (elim found [ none ↦ none | some o ↦ some (tick_index_at array tick_spacing o) ])

-- `TickArray::initialize`, with the pool's key and tick spacing.
unfoldable pub initialize : TickArray → ℕ → ℕ → ℤ → Result TickArray
unfolding check_is_valid_start_tick
initialize array pool_key tick_spacing start_tick_index = do
  valid ← check_is_valid_start_tick start_tick_index tick_spacing
  fail_if (not valid) invalid_start_tick
  ok (record array { pool = pool_key; start_tick_index = start_tick_index })

-- The guards that `get_tick` and `update_tick` share, and the offset. The second operand of `||`
-- is not evaluated where the first holds.
unfoldable pub checked_offset : TickArray → ℤ → ℕ → Result ℕ
checked_offset array tick_index tick_spacing = do
  fail_if (not (check_in_array_bounds array tick_index tick_spacing)) tick_not_found
  usable ← check_is_usable_tick tick_index tick_spacing
  fail_if (not usable) tick_not_found
  offset ← tick_offset array tick_index tick_spacing
  elim offset [ pos o ↦ ok o | negsuc o ↦ err tick_not_found ]

unfoldable pub get_tick : TickArray → ℤ → ℕ → Result Tick
get_tick array tick_index tick_spacing = do
  offset ← checked_offset array tick_index tick_spacing
  unwrap (get_elem? array.ticks offset)

unfoldable pub update_tick : TickArray → ℤ → ℕ → TickUpdate → Result TickArray
update_tick array tick_index tick_spacing u = do
  offset ← checked_offset array tick_index tick_spacing
  tick ← unwrap (get_elem? array.ticks offset)
  ok (record array { ticks = set array.ticks offset (update tick u) })
