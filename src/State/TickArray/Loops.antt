-- ===== src/State/TickArray/Loops.antt =====
-- programs/elysium/src/state/tick.rs: the loops of `get_next_init_tick_index`, to the left and to
-- the right.
use elysium_dex.Base.{
  ℕ, zero, suc, ◌+◌, ◌<◌, ◌≤◌, ◌≡◌, ◌∙◌, refl, Bool, true, false, Option, none, some, List, inl,
  inr, Bool-cases, arith, length, get_elem?, get_elem?-some,
}
use elysium_dex.Errors.{Result, ok}
use elysium_dex.State.Tick.{Tick}
use elysium_dex.State.TickArray.{search_left, search_right}

-- Whether the tick at an offset is initialised; no tick outside the array is.
abbrev pub init_at : List Tick → ℕ → Bool
init_at ticks o = elim (get_elem? ticks o) [ none ↦ false | some t ↦ t.initialized ]

-- Among the offsets from `from` on and below `to`, the greatest that is initialised, or none.
abbrev pub Last : List Tick → ℕ → ℕ → Option ℕ → Type 0
Last ticks from to none = (j : ℕ) → from ≤ j → j < to → init_at ticks j ≡ false
Last ticks from to (some o) =
    (from ≤ o)
    × (o < to)
    × (init_at ticks o ≡ true)
    × ((j : ℕ) → o < j → j < to → init_at ticks j ≡ false)

-- The least one, or none.
abbrev pub First : List Tick → ℕ → ℕ → Option ℕ → Type 0
First ticks from to none = (j : ℕ) → from ≤ j → j < to → init_at ticks j ≡ false
First ticks from to (some o) =
    (from ≤ o)
    × (o < to)
    × (init_at ticks o ≡ true)
    × ((j : ℕ) → from ≤ j → j < o → init_at ticks j ≡ false)

-- A search that neither fails nor panics, with a result that meets a condition.
abbrev pub Returns {ℓ κ} : {A : Type ℓ} → (A → Type κ) → Result A → Type (ℓ ⊔ κ)
Returns {A} P r = (a : A) × (r ≡ ok a) × P a

pub init_at-some :
    (ticks : List Tick) (n : ℕ) (t : Tick)
    → get_elem? ticks n ≡ some t
    → init_at ticks n ≡ t.initialized
init_at-some ticks n t e = ground arith

pub extend_none :
    (ticks : List Tick) (n : ℕ)
    → init_at ticks n ≡ false
    → Last ticks 0 n none
    → Last ticks 0 (suc n) none
extend_none ticks n e h j from to = ground (arith, h j)

pub search_left-Last :
    (ticks : List Tick) (n : ℕ) → n ≤ length ticks → Returns (Last ticks 0 n) (search_left ticks n)
unfolding search_left
search_left-Last ticks zero h = (none, refl, λ j from to. elim to [ ])
search_left-Last ticks (suc n) h =
    let (t, e) = get_elem?-some ticks n (omega arith) in
    let (r, er, below) = search_left-Last ticks n (omega arith) in
    elim (Bool-cases t.initialized) [
      | inl there ↦ (
        some n,
        rw (e, there) refl,
        (
          omega arith,
          omega arith,
          init_at-some ticks n t e ∙ there,
          λ j from to. absurd (omega arith),
        ),
      )
      | inr absent ↦ (r, rw (e, absent) er, extend r (init_at-some ticks n t e ∙ absent) below)
    ]
  where
    extend : (r : Option ℕ) → init_at ticks n ≡ false → Last ticks 0 n r → Last ticks 0 (suc n) r
    extend none absent below = extend_none ticks n absent below
    extend (some o) absent (from, to, there, above) =
        (from, omega arith, there, λ j lo hi. ground (arith, above j))

pub search_right-First :
    (rounds : ℕ) (ticks : List Tick) (i : ℕ)
    → i + rounds ≤ length ticks
    → Returns (First ticks i (i + rounds)) (search_right rounds ticks i)
unfolding search_right
search_right-First zero ticks i h = (none, refl, λ j from to. absurd (omega arith))
search_right-First (suc rounds) ticks i h =
    let (t, e) = get_elem?-some ticks i (omega arith) in
    let (r, er, above) = search_right-First rounds ticks (i + 1) (omega arith) in
    elim (Bool-cases t.initialized) [
      | inl there ↦ (
        some i,
        rw (e, there) refl,
        (
          omega arith,
          omega arith,
          init_at-some ticks i t e ∙ there,
          λ j from to. absurd (omega arith),
        ),
      )
      | inr absent ↦ (r, rw (e, absent) er, extend r (init_at-some ticks i t e ∙ absent) above)
    ]
  where
    extend :
        (r : Option ℕ)
        → init_at ticks i ≡ false
        → First ticks (i + 1) (i + 1 + rounds) r
        → First ticks i (i + suc rounds) r
    extend none absent above = λ j from to. ground (arith, above j)
    extend (some o) absent (from, to, there, below) =
        (omega arith, omega arith, there, λ j lo hi. ground (arith, below j))
