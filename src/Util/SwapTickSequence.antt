-- ===== src/Util/SwapTickSequence.antt =====
-- programs/elysium/src/util/swap_tick_sequence.rs: the tick arrays that a swap goes through.
pub mod Termination
use elysium_dex.Base.{
  ℕ, zero, suc, ◌+◌, Bool, not, ◌&&◌, Option, none, some, List, [], ◌∷◌, length, get_elem?, set,
  ◌==◌, if◌then◌else◌,
}
use elysium_dex.Base.Int.{ℤ, pos}
use elysium_dex.Base.Words.{add_i32, sub_i32}
use elysium_dex.Errors.{
  Result, ok, err, panic, ok_or, ◌>>=◌, tick_array_index_outof_bounds,
  tick_array_sequence_invalid_index,
}
use elysium_dex.State.Tick.{Tick, TickUpdate, ticks_in_array, max_tick_index, min_tick_index}
use elysium_dex.State.TickArray as Array
use elysium_dex.State.TickArray.{
  TickArray, get_next_init_tick_index, is_min_tick_array, is_max_tick_array, tick_offset,
}

-- `arrays`
abbrev pub SwapTickSequence : Type 0
SwapTickSequence = List TickArray

-- `Vec::push` of an array that is there.
abbrev push_some : Option TickArray → SwapTickSequence → SwapTickSequence
push_some none rest = rest
push_some (some array) rest = array ∷ rest

unfoldable pub new_sequence : TickArray → Option TickArray → Option TickArray → SwapTickSequence
new_sequence ta0 ta1 ta2 = ta0 ∷ push_some ta1 (push_some ta2 [])

unfoldable pub get_tick : SwapTickSequence → ℕ → ℤ → ℕ → Result Tick
unfolding Array.get_tick
get_tick arrays array_index tick_index tick_spacing = do
  array ← ok_or (get_elem? arrays array_index) tick_array_index_outof_bounds
  Array.get_tick array tick_index tick_spacing

unfoldable pub update_tick : SwapTickSequence → ℕ → ℤ → ℕ → TickUpdate → Result SwapTickSequence
unfolding Array.update_tick
update_tick arrays array_index tick_index tick_spacing u = do
  array ← ok_or (get_elem? arrays array_index) tick_array_index_outof_bounds
  array' ← Array.update_tick array tick_index tick_spacing u
  ok (set arrays array_index array')

unfoldable pub get_tick_offset : SwapTickSequence → ℕ → ℤ → ℕ → Result ℤ
unfolding tick_offset
get_tick_offset arrays array_index tick_index tick_spacing = do
  array ← ok_or (get_elem? arrays array_index) tick_array_index_outof_bounds
  tick_offset array tick_index tick_spacing

-- The last tick of an array, `start_tick_index + ticks_in_array - 1`.
unfoldable pub last_tick : TickArray → ℕ → ℤ
unfolding add_i32 sub_i32 ticks_in_array
last_tick array tick_spacing =
    sub_i32 (add_i32 array.start_tick_index (ticks_in_array tick_spacing)) (pos 1)

-- What one round of the loop finds where the array has no initialised tick: the tick to return,
-- or the index from which to search the next array.
pub data ArrayEnd : Type 0 where
  answer : ℤ → ArrayEnd
  resume : ℤ → ArrayEnd

unfoldable pub array_end : SwapTickSequence → TickArray → ℕ → ℕ → Bool → ArrayEnd
unfolding last_tick is_min_tick_array is_max_tick_array sub_i32
array_end arrays array array_index tick_spacing a_to_b =
    if a_to_b && is_min_tick_array array
    then answer min_tick_index
    else if not a_to_b && is_max_tick_array array tick_spacing
    then answer max_tick_index
    else if (array_index + 1) == length arrays
    then answer (if a_to_b then array.start_tick_index else last_tick array tick_spacing)
    else resume
        (if a_to_b then sub_i32 array.start_tick_index (pos 1) else last_tick array tick_spacing)

-- The loop of `get_next_initialized_tick_index`. Each round takes the next array, so one round more
-- than there are arrays is enough; `none` is a loop out of fuel.
unfoldable pub search_arrays : ℕ → SwapTickSequence → ℤ → ℕ → Bool → ℕ → Option (Result (ℕ × ℤ))
unfolding get_next_init_tick_index array_end
search_arrays zero arrays search_index tick_spacing a_to_b array_index = none
search_arrays (suc fuel) arrays search_index tick_spacing a_to_b array_index =
    elim (get_elem? arrays array_index) [
      | none ↦ some (err tick_array_sequence_invalid_index)
      | some array ↦ elim (get_next_init_tick_index array search_index tick_spacing a_to_b) [
        | err e ↦ some (err e)
        | panic ↦ some panic
        | ok (some tick_index) ↦ some (ok (array_index, tick_index))
        | ok none ↦ elim (array_end arrays array array_index tick_spacing a_to_b) [
          | answer tick_index ↦ some (ok (array_index, tick_index))
          | resume next_search ↦
              search_arrays fuel arrays next_search tick_spacing a_to_b (array_index + 1)
        ]
      ]
    ]

abbrev in_time : Option (Result (ℕ × ℤ)) → Result (ℕ × ℤ)
in_time none = panic
in_time (some r) = r

unfoldable pub get_next_initialized_tick_index :
    SwapTickSequence → ℤ → ℕ → Bool → ℕ → Result (ℕ × ℤ)
unfolding search_arrays
get_next_initialized_tick_index arrays tick_index tick_spacing a_to_b start_array_index =
    in_time
      (search_arrays (suc (length arrays)) arrays tick_index tick_spacing a_to_b start_array_index)
