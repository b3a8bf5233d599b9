-- ===== src/Examples/Arrays.antt =====
-- Searches and updates in a tick array that starts at -704 and has spacing 8.
use elysium_dex.Base.{◌≡◌, ◌≢◌, ◌⊎◌, refl, true, arith, set, replicate}
use elysium_dex.Base.Int.{ℤ, negsuc, ◌+ℤ◌, ◌-ℤ◌, ◌*ℤ◌}
use elysium_dex.Errors.{ok, ◌>>=◌}
use elysium_dex.State.Tick.{Tick, default_tick, update, update_from, check_is_out_of_bounds}
use elysium_dex.State.TickArray.{
  TickArray, in_search_range, get_next_init_tick_index, get_tick, update_tick,
}
use elysium_dex.State.TickArray.Offset.{IsTickArray, IsSmall}
use elysium_dex.State.TickArray.Loops.{Returns}
use elysium_dex.State.TickArray.Search.{Answers, get_next_init_tick_index-Answers}
use elysium_dex.State.TickArray.Update.{get_tick-update_tick}

-- The ticks at -640 and 0 minus 16 are initialised.
abbrev on : Tick
on = record default_tick { initialized = true; liquidity_gross = 1 }

abbrev array : TickArray
array = record {
  start_tick_index = negsuc 703;
  ticks = set (set (replicate 88 default_tick) 8 on) 86 on;
  pool = 3;
}

array-IsTickArray : IsTickArray array 8
array-IsTickArray = record {
  size = refl;
  start_small = omega arith;
  spacing_pos = omega arith;
  spacing_u16 = omega arith;
}

search_left_example :
    Returns (Answers array 8 (negsuc 17) true) (get_next_init_tick_index array (negsuc 17) 8 true)
unfolding in_search_range ◌+ℤ◌ ◌-ℤ◌ ◌*ℤ◌
search_left_example =
    get_next_init_tick_index-Answers array (negsuc 17) 8 true array-IsTickArray (omega arith) refl

get_tick-update_tick_example :
    (a' : TickArray) × (update_tick array (negsuc 639) 8 (update_from on) ≡ ok a')
    × IsTickArray a' 8
    × ((t' : ℤ)
        → IsSmall t'
        → ((negsuc 639 ≡ t')
            × (get_tick a' t' 8
                ≡ (get_tick array (negsuc 639) 8 >>= λ k. ok (update k (update_from on)))))
          ⊎ ((negsuc 639 ≢ t') × (get_tick a' t' 8 ≡ get_tick array t' 8)))
unfolding in_search_range check_is_out_of_bounds ◌+ℤ◌ ◌-ℤ◌ ◌*ℤ◌
get_tick-update_tick_example =
    get_tick-update_tick array (negsuc 639) 8 (update_from on) array-IsTickArray (omega arith) refl
