-- ===== src/Manager/Tick/Ranges.antt =====
-- The growth inside a range of ticks: it survives the crossing of its ends, adds up over adjacent
-- ranges, and moves with the global growth only while the current tick is inside.
use elysium_dex.Base.{ℕ, ◌+◌, ◌%◌, ◌<◌, ◌≡◌, Bool, true, false, ◌&&◌, if◌then◌else◌, Triple, arith}
use elysium_dex.Base.Int.{ℤ, ◌≤ℤ◌, ◌<ℤ◌, ltb_ℤ, leb_ℤ}
use elysium_dex.Base.Words.{u128_mod, sub_u128, add_u128}
use elysium_dex.Errors.{ok}
use elysium_dex.State.RewardInfo.{ElysiumPoolRewardInfo}
use elysium_dex.State.Tick.{Tick, TickUpdate, update, update_from}
use elysium_dex.Manager.Tick.{
  next_tick_cross_update, growth_between, growth_below, growth_above, next_fee_growths_inside,
}
use elysium_dex.Manager.Tick.Crossing.{GrowthsFit}

ltb_ℤ-true : (a b : ℤ) → a <ℤ b → ltb_ℤ a b ≡ true
ltb_ℤ-true a b h = ground arith

ltb_ℤ-false : (a b : ℤ) → b ≤ℤ a → ltb_ℤ a b ≡ false
ltb_ℤ-false a b h = ground arith

-- When the price passes the upper tick of a range, from inside it, the tick is crossed and the
-- growths inside the range stay as they are; `c` and `c'` are the current
-- tick before and after, the crossed tick is initialised, and all growths are `u128`.
pub inside-cross_upper :
    (c c' : ℤ) (lower upper : Tick) (lower_index upper_index : ℤ) (global_a global_b : ℕ)
    (r : Triple ElysiumPoolRewardInfo) (u : TickUpdate)
    → GrowthsFit upper
    → global_a < u128_mod
    → global_b < u128_mod
    → upper.initialized ≡ true
    → lower_index ≤ℤ c
    → c <ℤ upper_index
    → upper_index ≤ℤ c'
    → next_tick_cross_update upper global_a global_b r ≡ ok u
    → next_fee_growths_inside c' lower lower_index (update upper u) upper_index global_a global_b
      ≡ next_fee_growths_inside c lower lower_index upper upper_index global_a global_b
unfolding next_tick_cross_update update update_from next_fee_growths_inside growth_between
    growth_below growth_above
inside-cross_upper c c' lower upper li ui ga gb r u hu ha hb up below_c c_above above_c crossed =
    rw
      (
        ltb_ℤ-true c ui c_above,
        ltb_ℤ-false c' ui above_c,
        ltb_ℤ-false c li below_c,
        ltb_ℤ-false c' li (omega arith),
      )
      (ground arith)

-- When the price passes the lower tick of a range downwards, from inside it, the tick is crossed
-- and the growths inside the range stay as they are; `c` and `c'` are the current tick before and
-- after, the crossed tick is initialised, and all growths are `u128`.
inside-cross_lower :
    (c c' : ℤ) (lower upper : Tick) (lower_index upper_index : ℤ) (global_a global_b : ℕ)
    (r : Triple ElysiumPoolRewardInfo) (u : TickUpdate)
    → GrowthsFit lower
    → global_a < u128_mod
    → global_b < u128_mod
    → lower.initialized ≡ true
    → lower_index ≤ℤ c
    → c <ℤ upper_index
    → c' <ℤ lower_index
    → next_tick_cross_update lower global_a global_b r ≡ ok u
    → next_fee_growths_inside c' (update lower u) lower_index upper upper_index global_a global_b
      ≡ next_fee_growths_inside c lower lower_index upper upper_index global_a global_b
unfolding next_tick_cross_update update update_from next_fee_growths_inside growth_between
    growth_below growth_above
inside-cross_lower c c' lower upper li ui ga gb r u hl ha hb lo above_c c_below below_c crossed =
    rw
      (
        ltb_ℤ-true c ui c_below,
        ltb_ℤ-true c' ui (omega arith),
        ltb_ℤ-false c li above_c,
        ltb_ℤ-true c' li below_c,
      )
      (ground arith)

-- What is below an initialised tick and what is above it make up the global growth.
below-above :
    (b : Bool) (g o : ℕ)
    → g < u128_mod
    → o < u128_mod
    → (growth_below true b g o + growth_above true b g o) % u128_mod ≡ g
unfolding growth_below growth_above
below-above true g o hg ho = omega arith
below-above false g o hg ho = omega arith

growth_below-lt :
    (i b : Bool) (g o : ℕ) → g < u128_mod → o < u128_mod → growth_below i b g o < u128_mod
unfolding growth_below
growth_below-lt i b g o hg ho = ground arith

growth_above-lt :
    (i b : Bool) (g o : ℕ) → g < u128_mod → o < u128_mod → growth_above i b g o < u128_mod
unfolding growth_above
growth_above-lt i b g o hg ho = ground arith

sum_of_differences :
    (g x p q z : ℕ)
    → g < u128_mod
    → x < u128_mod
    → p < u128_mod
    → q < u128_mod
    → z < u128_mod
    → (q + p) % u128_mod ≡ g
    → add_u128 (sub_u128 (sub_u128 g x) p) (sub_u128 (sub_u128 g q) z) ≡ sub_u128 (sub_u128 g x) z
sum_of_differences g x p q z hg hx hp hq hz e = omega arith

growth_between-add :
    (l m u : Tick) (bl bm bu : Bool) (g ol om ou : ℕ)
    → m.initialized ≡ true
    → g < u128_mod
    → ol < u128_mod
    → om < u128_mod
    → ou < u128_mod
    → add_u128 (growth_between l bl m bm g ol om) (growth_between m bm u bu g om ou)
      ≡ growth_between l bl u bu g ol ou
unfolding growth_between
growth_between-add l m u bl bm bu g ol om ou e hg hl hm hu = rw e (
    sum_of_differences g _ (growth_above true bm g om) (growth_below true bm g om) _ hg
      (growth_below-lt l.initialized bl g ol hg hl) (growth_above-lt true bm g om hg hm)
      (growth_below-lt true bm g om hg hm) (growth_above-lt u.initialized bu g ou hg hu)
      (below-above bm g om hg hm))

-- For every current tick, the growths inside two adjacent ranges add up to the growth inside their
-- union, modulo 2^128, provided the tick that they share is initialised and all growths are `u128`.
pub inside-add :
    (c : ℤ) (l m u : Tick) (li mi ui : ℤ) (global_a global_b : ℕ)
    → m.initialized ≡ true
    → GrowthsFit l
    → GrowthsFit m
    → GrowthsFit u
    → global_a < u128_mod
    → global_b < u128_mod
    → let (left_a, left_b) = next_fee_growths_inside c l li m mi global_a global_b in
      let (right_a, right_b) = next_fee_growths_inside c m mi u ui global_a global_b in
      (add_u128 left_a right_a, add_u128 left_b right_b)
      ≡ next_fee_growths_inside c l li u ui global_a global_b
unfolding next_fee_growths_inside
inside-add c l m u li mi ui ga gb e hl hm hu ha hb = cc (
  growth_between-add l m u (ltb_ℤ c li) (ltb_ℤ c mi) (ltb_ℤ c ui) ga _ _ _ e ha hl.fee_a hm.fee_a
      hu.fee_a,
  growth_between-add l m u (ltb_ℤ c li) (ltb_ℤ c mi) (ltb_ℤ c ui) gb _ _ _ e hb hl.fee_b hm.fee_b
      hu.fee_b,
)

-- The current tick lies in the range.
abbrev pub is_inside : ℤ → ℤ → ℤ → Bool
is_inside c li ui = leb_ℤ li c && ltb_ℤ c ui

growth_between-grow :
    (l u : Tick) (c li ui : ℤ) (g d ol ou : ℕ)
    → l.initialized ≡ true
    → u.initialized ≡ true
    → li <ℤ ui
    → g < u128_mod
    → d < u128_mod
    → ol < u128_mod
    → ou < u128_mod
    → growth_between l (ltb_ℤ c li) u (ltb_ℤ c ui) (add_u128 g d) ol ou ≡ (
        if is_inside c li ui
        then add_u128 (growth_between l (ltb_ℤ c li) u (ltb_ℤ c ui) g ol ou) d
        else growth_between l (ltb_ℤ c li) u (ltb_ℤ c ui) g ol ou)
unfolding growth_between growth_below growth_above
growth_between-grow l u c li ui g d ol ou el eu h hg hd hl hu = ground arith

-- When the global growths increase, modulo 2^128, a range between two initialised ticks, the lower
-- one first, gains the same increase if the current tick is inside it and nothing otherwise; all
-- growths are `u128`.
pub inside-grow :
    (c : ℤ) (l u : Tick) (li ui : ℤ) (global_a global_b d_a d_b : ℕ)
    → l.initialized ≡ true
    → u.initialized ≡ true
    → li <ℤ ui
    → GrowthsFit l
    → GrowthsFit u
    → global_a < u128_mod
    → global_b < u128_mod
    → d_a < u128_mod
    → d_b < u128_mod
    → next_fee_growths_inside c l li u ui (add_u128 global_a d_a) (add_u128 global_b d_b) ≡ (
        let (a, b) = next_fee_growths_inside c l li u ui global_a global_b in
        if is_inside c li ui then (add_u128 a d_a, add_u128 b d_b) else (a, b))
unfolding next_fee_growths_inside
inside-grow c l u li ui ga gb da db el eu h hl hu ha hb hda hdb = ground (
  arith,
  growth_between-grow l u c li ui ga da l.fee_growth_outside_a u.fee_growth_outside_a el eu h ha hda
      hl.fee_a hu.fee_a,
  growth_between-grow l u c li ui gb db l.fee_growth_outside_b u.fee_growth_outside_b el eu h hb hdb
      hl.fee_b hu.fee_b,
)
