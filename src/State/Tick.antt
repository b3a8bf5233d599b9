-- ===== src/State/Tick.antt =====
-- programs/elysium/src/state/tick.rs: a tick, its update, and the tests on a tick index.
use elysium_dex.Base.{ℕ, Bool, false, ◌||◌, Triple, fill, ◌==◌, if◌then◌else◌}
use elysium_dex.Base.Int.{ℤ, pos, negsuc, max_ℤ, min_ℤ, ltb_ℤ, eqb_ℤ, trem}
use elysium_dex.Base.Words.{add_i32, sub_i32, mul_i32}
use elysium_dex.Errors.{Result, ok, panic}

abbrev pub max_tick_index : ℤ
max_tick_index = pos 443636

-- -443636
abbrev pub min_tick_index : ℤ
min_tick_index = negsuc 443635

-- `TICK_ARRAY_SIZE`, and `TICK_ARRAY_SIZE_USIZE`.
abbrev pub tick_array_size : ℕ
tick_array_size = 88

pub record Tick : Type 0 where
  pub initialized : Bool
  pub liquidity_net : ℤ
  pub liquidity_gross : ℕ
  pub fee_growth_outside_a : ℕ
  pub fee_growth_outside_b : ℕ
  pub reward_growths_outside : Triple ℕ

pub record TickUpdate : Type 0 where
  pub initialized : Bool
  pub liquidity_net : ℤ
  pub liquidity_gross : ℕ
  pub fee_growth_outside_a : ℕ
  pub fee_growth_outside_b : ℕ
  pub reward_growths_outside : Triple ℕ

-- `Tick::default()`
abbrev pub default_tick : Tick
default_tick = record {
  initialized = false;
  liquidity_net = pos 0;
  liquidity_gross = 0;
  fee_growth_outside_a = 0;
  fee_growth_outside_b = 0;
  reward_growths_outside = fill 0;
}

-- `TickUpdate::default()`
abbrev pub default_tick_update : TickUpdate
default_tick_update = record {
  initialized = false;
  liquidity_net = pos 0;
  liquidity_gross = 0;
  fee_growth_outside_a = 0;
  fee_growth_outside_b = 0;
  reward_growths_outside = fill 0;
}

-- `Tick::update`
unfoldable pub update : Tick → TickUpdate → Tick
update tick u = record tick {
  initialized = u.initialized;
  liquidity_net = u.liquidity_net;
  liquidity_gross = u.liquidity_gross;
  fee_growth_outside_a = u.fee_growth_outside_a;
  fee_growth_outside_b = u.fee_growth_outside_b;
  reward_growths_outside = u.reward_growths_outside;
}

-- `TickUpdate::from`
unfoldable pub update_from : Tick → TickUpdate
update_from tick = record {
  initialized = tick.initialized;
  liquidity_net = tick.liquidity_net;
  liquidity_gross = tick.liquidity_gross;
  fee_growth_outside_a = tick.fee_growth_outside_a;
  fee_growth_outside_b = tick.fee_growth_outside_b;
  reward_growths_outside = tick.reward_growths_outside;
}

unfoldable pub check_is_out_of_bounds : ℤ → Bool
check_is_out_of_bounds tick_index =
    ltb_ℤ max_tick_index tick_index || ltb_ℤ tick_index min_tick_index

-- `TICK_ARRAY_SIZE * tick_spacing as i32`
unfoldable pub ticks_in_array : ℕ → ℤ
unfolding mul_i32
ticks_in_array tick_spacing = mul_i32 (pos tick_array_size) (pos tick_spacing)

unfoldable pub check_is_valid_start_tick : ℤ → ℕ → Result Bool
unfolding check_is_out_of_bounds ticks_in_array add_i32 sub_i32
check_is_valid_start_tick tick_index tick_spacing =
    if check_is_out_of_bounds tick_index
    then (if ltb_ℤ min_tick_index tick_index
        then ok false
        else if eqb_ℤ (ticks_in_array tick_spacing) (pos 0)
        then panic
        else ok (
            eqb_ℤ tick_index (
              sub_i32 min_tick_index (
                add_i32 (trem min_tick_index (ticks_in_array tick_spacing))
                  (ticks_in_array tick_spacing)))))
    else if eqb_ℤ (ticks_in_array tick_spacing) (pos 0)
    then panic
    else ok (eqb_ℤ (trem tick_index (ticks_in_array tick_spacing)) (pos 0))

unfoldable pub check_is_usable_tick : ℤ → ℕ → Result Bool
check_is_usable_tick tick_index tick_spacing =
    if check_is_out_of_bounds tick_index
    then ok false
    else if tick_spacing == 0
    then panic
    else ok (eqb_ℤ (trem tick_index (pos tick_spacing)) (pos 0))

unfoldable pub bound_tick_index : ℤ → ℤ
bound_tick_index tick_index = min_ℤ (max_ℤ tick_index min_tick_index) max_tick_index
