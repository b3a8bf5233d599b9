-- ===== src/Instructions/Outcome.antt =====
-- The outcome of an instruction, and the accounts that Anchor hands to a handler.
use elysium_dex.Base.{ℕ, ◌≡◌, refl, ap, Option, none, some, Bool, true, false}
use elysium_dex.Errors.{ErrorCode, Result, ok, err, panic}

-- Why an instruction fails. `out_of_fuel` is the model's: a loop that has not ended in its rounds.
pub data Failure : Type 0 where
  constraint_violated program_call_failed panicked out_of_fuel : Failure
  program_error : ErrorCode → Failure

-- A failed instruction leaves every account as it was, so only a finished one returns new ones.
pub data Outcome {ℓ} (A : Type ℓ) : Type ℓ where
  done : A → Outcome A
  failed : Failure → Outcome A

infixl 5 ◌>>=◌ ◌>>◌
abbrev pub ◌>>=◌ {ℓ κ} : {A : Type ℓ} {B : Type κ} → Outcome A → (A → Outcome B) → Outcome B
failed why >>= continue = failed why
done value >>= continue = continue value

abbrev pub ◌>>◌ {κ} : {A : Type κ} → Outcome (Unit {0}) → Outcome A → Outcome A
first >> second = first >>= λ finished. second

module _ {ℓ} {A : Type ℓ} where
  -- A call of a function of the program, `f(..)?`.
  abbrev pub lift : Result A → Outcome A
  lift (ok value) = done value
  lift (err code) = failed (program_error code)
  lift panic = failed panicked

  -- A call of another program, `invoke_signed(..)?`.
  abbrev pub invoke : Option A → Outcome A
  invoke none = failed program_call_failed
  invoke (some value) = done value

  -- A loop that runs on fuel.
  abbrev pub in_rounds : Option (Result A) → Outcome A
  in_rounds none = failed out_of_fuel
  in_rounds (some r) = lift r

-- A constraint on the accounts.
abbrev pub require : Bool → Outcome (Unit {0})
require true = done tt
require false = failed constraint_violated

-- `Account<'info, T>`: the data, and the key of the account.
pub record Account (A : Type 0) : Type 0 where
  pub key : ℕ
  pub content : A

-- A sequence that finishes has finished each of its parts.
pub bind_finishes {ℓ κ} :
    {A : Type ℓ} {B : Type κ} (first : Outcome A) (continue : A → Outcome B) {end : B}
    → (first >>= continue) ≡ done end
    → (value : A) × (first ≡ done value) × (continue value ≡ done end)
bind_finishes (failed why) continue e = cc
bind_finishes (done value) continue e = (value, refl, e)

pub require_holds : (test : Bool) {u : Unit {0}} → require test ≡ done u → test ≡ true
require_holds true e = refl
require_holds false e = cc

pub done_injective : {A : Type 0} {a b : A} → done a ≡ done b → a ≡ b
done_injective e = cc

pub lift_returns : {A : Type 0} (r : Result A) {a : A} → lift r ≡ done a → r ≡ ok a
lift_returns (ok value) e = ap ok (done_injective e)
lift_returns (err code) e = cc
lift_returns panic e = cc

-- A guarded call that finishes has returned.
pub guarded_call_returns :
    {A : Type 0} (test : Bool) (r : Result A) {a : A}
    → (require test >> lift r) ≡ done a
    → (test ≡ true) × (r ≡ ok a)
guarded_call_returns true r e = (refl, lift_returns r e)
guarded_call_returns false r e = cc
