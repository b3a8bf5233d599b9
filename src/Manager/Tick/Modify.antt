-- ===== src/Manager/Tick/Modify.antt =====
-- A tick whose liquidity changes: when it is initialised, and that the change can be undone.
use elysium_dex.Base.{ℕ, ◌<◌, ◌≡◌, ◌≢◌, Bool, true, false, not, some, Triple, arith, ◌==◌}
use elysium_dex.Base.Int.{ℤ, pos, negate, ◌+ℤ◌, ◌-ℤ◌}
use elysium_dex.Base.Words.{u128_mod, i128_max, Fits}
use elysium_dex.Errors.{ok}
use elysium_dex.Math.Liquidity.{add_liquidity_delta}
use elysium_dex.Math.Liquidity.Exact.{add_liquidity_delta_undo}
use elysium_dex.State.RewardInfo.{ElysiumPoolRewardInfo}
use elysium_dex.State.Tick.{Tick, TickUpdate, update, update_from}
use elysium_dex.Manager.Tick.{
  next_tick_modify_liquidity_update, next_liquidity_net, outside_growths,
}

-- A tick is initialised exactly while some liquidity refers to it.
abbrev pub IsConsistent : Tick → Type 0
IsConsistent tick = tick.initialized ≡ not (tick.liquidity_gross == 0)

-- A successful change of liquidity keeps a tick initialised exactly while its gross liquidity is
-- not zero.
pub modify-IsConsistent :
    (tick : Tick) (tick_index current : ℤ) (global_a global_b : ℕ)
    (r : Triple ElysiumPoolRewardInfo) (delta : ℤ) (is_upper : Bool) (u : TickUpdate)
    → IsConsistent tick
    → next_tick_modify_liquidity_update tick tick_index current global_a global_b r delta is_upper
      ≡ ok u
    → IsConsistent (update tick u)
unfolding next_tick_modify_liquidity_update update update_from outside_growths add_liquidity_delta
    next_liquidity_net
modify-IsConsistent tick tick_index current ga gb r delta is_upper u h e = ground arith

-- The opposite change of the net liquidity undoes it.
next_liquidity_net_undo :
    (is_upper : Bool) (net delta : ℤ) {m : ℤ}
    → Fits i128_max net
    → next_liquidity_net is_upper net delta ≡ some m
    → next_liquidity_net is_upper m (negate delta) ≡ some net
unfolding next_liquidity_net ◌+ℤ◌ ◌-ℤ◌
next_liquidity_net_undo true net delta h e = ground arith
next_liquidity_net_undo false net delta h e = ground arith

-- What a successful change of an initialised tick that stays initialised comes from.
abbrev Changes : Tick → ℤ → Bool → TickUpdate → Type 0
Changes tick delta is_upper u =
    (add_liquidity_delta tick.liquidity_gross delta ≡ ok u.liquidity_gross)
    × (next_liquidity_net is_upper tick.liquidity_net delta ≡ some u.liquidity_net)
    × (u ≡ record (update_from tick) {
      initialized = true;
      liquidity_net = u.liquidity_net;
      liquidity_gross = u.liquidity_gross;
    })

modify-Changes :
    (tick : Tick) (tick_index current : ℤ) (global_a global_b : ℕ)
    (r : Triple ElysiumPoolRewardInfo) (delta : ℤ) (is_upper : Bool) (u : TickUpdate)
    → delta ≢ pos 0
    → tick.liquidity_gross ≢ 0
    → u.liquidity_gross ≢ 0
    → next_tick_modify_liquidity_update tick tick_index current global_a global_b r delta is_upper
      ≡ ok u
    → Changes tick delta is_upper u
unfolding next_tick_modify_liquidity_update update_from outside_growths
modify-Changes tick ti c ga gb r delta is_upper u hd hg hu e =
    (ground arith, ground arith, ground arith)

Changes-modify :
    (tick : Tick) (tick_index current : ℤ) (global_a global_b : ℕ)
    (r : Triple ElysiumPoolRewardInfo) (delta : ℤ) (is_upper : Bool) (u : TickUpdate)
    → delta ≢ pos 0
    → tick.liquidity_gross ≢ 0
    → u.liquidity_gross ≢ 0
    → Changes tick delta is_upper u
    → next_tick_modify_liquidity_update tick tick_index current global_a global_b r delta is_upper
      ≡ ok u
unfolding next_tick_modify_liquidity_update update_from outside_growths
Changes-modify tick ti c ga gb r delta is_upper u hd hg hu h = ground arith

-- A change of an initialised tick by a delta other than zero that can be negated, which leaves some
-- liquidity, is undone by the opposite one, even after fees and rewards have grown in between: the
-- tick is as before, outside growths included.
pub modify_undo :
    (tick : Tick) (tick_index current current' : ℤ) (global_a global_b global_a' global_b' : ℕ)
    (r r' : Triple ElysiumPoolRewardInfo) (delta : ℤ) (is_upper : Bool) (u : TickUpdate)
    → tick.initialized ≡ true
    → tick.liquidity_gross ≢ 0
    → tick.liquidity_gross < u128_mod
    → Fits i128_max tick.liquidity_net
    → delta ≢ pos 0
    → Fits i128_max delta
    → Fits i128_max (negate delta)
    → next_tick_modify_liquidity_update tick tick_index current global_a global_b r delta is_upper
      ≡ ok u
    → u.liquidity_gross ≢ 0
    → next_tick_modify_liquidity_update
        (update tick u)
        tick_index
        current'
        global_a'
        global_b'
        r'
        (negate delta)
        is_upper
      ≡ ok (update_from tick)
unfolding update update_from
modify_undo tick ti c c' ga gb ga' gb' r r' delta is_upper u hi hg hl hn h0 hd hd' e hu =
    let (gross, net, same) = modify-Changes tick ti c ga gb r delta is_upper u h0 hg hu e in
    Changes-modify (update tick u) ti c' ga' gb' r' (negate delta) is_upper (update_from tick)
      (ground arith) hu hg
      (
        add_liquidity_delta_undo tick.liquidity_gross delta hl hd hd' gross,
        next_liquidity_net_undo is_upper tick.liquidity_net delta hn net,
        cc,
      )
