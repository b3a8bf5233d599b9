-- ===== src/Base/Triples.antt =====
-- Rust's `[T; 3]`, the arrays of `NUM_REWARDS` entries, and the loops over them.
use Prim.Native.Nat.{ℕ, zero, suc}
use mathlib.Core.Option.{Option, none, some}

pub record Triple {ℓ} (A : Type ℓ) : Type ℓ where
  pub at_0 : A
  pub at_1 : A
  pub at_2 : A

module _ {ℓ} {A : Type ℓ} where
  -- `[a; 3]`
  abbrev pub fill : A → Triple A
  fill a = record { at_0 = a; at_1 = a; at_2 = a }

  -- `None` where Rust panics.
  abbrev pub entry? : Triple A → ℕ → Option A
  entry? t zero = some t.at_0
  entry? t (suc zero) = some t.at_1
  entry? t (suc (suc zero)) = some t.at_2
  entry? t (suc (suc (suc i))) = none

  abbrev pub put : Triple A → ℕ → A → Triple A
  put t zero a = record t { at_0 = a }
  put t (suc zero) a = record t { at_1 = a }
  put t (suc (suc zero)) a = record t { at_2 = a }
  put t (suc (suc (suc i))) a = t

-- `for i in 0..3` over one array, two or three of them.
abbrev pub map_1 {ℓ κ} : {A : Type ℓ} {B : Type κ} → (A → B) → Triple A → Triple B
map_1 f t = record { at_0 = f t.at_0; at_1 = f t.at_1; at_2 = f t.at_2 }

abbrev pub map_2 {ℓ κ μ} :
    {A : Type ℓ} {B : Type κ} {C : Type μ} → (A → B → C) → Triple A → Triple B → Triple C
map_2 f t u = record { at_0 = f t.at_0 u.at_0; at_1 = f t.at_1 u.at_1; at_2 = f t.at_2 u.at_2 }

abbrev pub map_3 {ℓ κ μ ν} :
    {A : Type ℓ} {B : Type κ} {C : Type μ} {D : Type ν}
    → (A → B → C → D)
    → Triple A
    → Triple B
    → Triple C
    → Triple D
map_3 f t u v = record {
  at_0 = f t.at_0 u.at_0 v.at_0;
  at_1 = f t.at_1 u.at_1 v.at_1;
  at_2 = f t.at_2 u.at_2 v.at_2;
}
