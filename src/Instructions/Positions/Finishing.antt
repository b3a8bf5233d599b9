-- ===== src/Instructions/Positions/Finishing.antt =====
-- close_position.rs, `handler`: exactly when it finishes, and when it refuses a position.
use elysium_dex.Base.{
  ◌↔◌, ◌≡◌, inl, inr, refl, sym, ◌∙◌, arith, Bool, true, false, Option, none, some,
}
use elysium_dex.Errors.{
  ErrorCode, Result, ok, err, panic, close_position_not_empty, invalid_position_token_amount,
  missing_or_invalid_delegate,
}
use elysium_dex.Util.Authority.{TokenAccount, Signer, verify_position_authority}
use elysium_dex.Util.Authority.Verify.{
  MayAct, verify_position_authority-Outcomes, verify_position_authority-MayAct,
}
use elysium_dex.Instructions.Outcome.{
  Failure, Outcome, done, failed, program_error, require, lift, invoke, ◌>>=◌, ◌>>◌, bind_finishes,
  require_holds, lift_returns,
}
use elysium_dex.Instructions.Runtime.{Runtime, position_seeds, burn_and_close_user_position_token}
use elysium_dex.Instructions.Liquidity.{holds_position}
use elysium_dex.Instructions.Positions.{
  ClosePosition, close_position_constraints, close_position_handler,
}
use elysium_dex.Instructions.Positions.Closing.{IsEmpty, MayClose, close_position_handler-Outcomes}

verified : (t : TokenAccount) (s : Signer) → MayAct t s → verify_position_authority t s ≡ ok tt
verified t s may = elim (verify_position_authority-Outcomes t s) [
  | inl (same, acts) ↦ same
  | inr (inl (wrong, h)) ↦ grind arith
  | inr (inr (missing, not_acting, h)) ↦ absurd (not_acting may)
]

invoke_finishes : {A : Type 0} (call : Option A) {a : A} → invoke call ≡ done a → call ≡ some a
invoke_finishes none e = cc
invoke_finishes (some a) e = cc

not_both : {A : Type 0} {why : Failure} {a : A} → failed why ≡ done a → ⊥
not_both e = cc

no_refusal :
    {A B : Type 0} (call : Option A) (next : A → Option B)
    → (invoke call >>= λ a. invoke (next a)) ≡ failed (program_error close_position_not_empty)
    → ⊥
no_refusal none next e = cc
no_refusal (some a) next e = last (next a) e
  where
    last :
        {B : Type 0} (call : Option B)
        → invoke call ≡ failed (program_error close_position_not_empty)
        → ⊥
    last none e = cc
    last (some b) e = cc

passed :
    {A : Type 0} (test : Bool) (t : TokenAccount) (s : Signer) (rest : Outcome A)
    → (require test >> (lift (verify_position_authority t s) >> rest))
      ≡ failed (program_error close_position_not_empty)
    → (test ≡ true) × (verify_position_authority t s ≡ ok tt)
passed false t s rest e = cc
passed true t s rest e = elim (verify_position_authority-Outcomes t s) [
  | inl (same, acts) ↦ (refl, same)
  | inr (inl (wrong, h)) ↦ absurd (stopped _ _ rest wrong differs_amount e)
  | inr (inr (missing, not_acting, h)) ↦ absurd (stopped _ _ rest missing differs_delegate e)
]
  where
    stopped :
        {A : Type 0} (r : Result (Unit {0})) (code : ErrorCode) (rest : Outcome A)
        → r ≡ err code
        → (code ≡ close_position_not_empty → ⊥)
        → (lift r >> rest) ≡ failed (program_error close_position_not_empty)
        → ⊥
    stopped (ok u) code rest f differs e = cc
    stopped (err other) code rest f differs e = differs cc
    stopped panic code rest f differs e = cc

    differs_amount : invalid_position_token_amount ≡ close_position_not_empty → ⊥
    differs_amount e = cc

    differs_delegate : missing_or_invalid_delegate ≡ close_position_not_empty → ⊥
    differs_delegate e = cc

module _ {Bank : Type 0} (runtime : Runtime Bank) where
  -- The signer holds the position's token, or is its delegate for it, and the accounts are those of
  -- the position.
  abbrev pub HoldsPosition : Bank → ClosePosition → Type 0
  HoldsPosition bank c =
      let t = runtime.token_account bank c.position_token_account in
      (c.position_authority.is_signer ≡ true)
      × (c.position.key ≡ runtime.address (position_seeds c.position_mint))
      × (c.position_mint ≡ c.position.content.position_mint)
      × (t.mint ≡ c.position.content.position_mint)
      × (t.amount ≡ 1)
      × MayAct t c.position_authority

  -- The token program burns the one token, and then closes its account for the receiver.
  abbrev pub BurnsAndCloses : Bank → ClosePosition → Bank → Type 0
  BurnsAndCloses bank c closed =
      (burnt : Bank) × (runtime.burn bank c.position_token_account c.position_mint
          c.position_authority.key 1
        ≡ some burnt)
      × (runtime.close_account burnt c.position_token_account c.receiver c.position_authority.key
          ≡ some closed)

  HoldsPosition-MayClose :
      (bank : Bank) (c : ClosePosition) → HoldsPosition bank c → MayClose runtime bank c
  unfolding close_position_constraints holds_position
  HoldsPosition-MayClose bank c (signed, at, same, mint, one, may) =
      (ground arith, verified _ _ may)

  MayClose-HoldsPosition :
      (bank : Bank) (c : ClosePosition) → MayClose runtime bank c → HoldsPosition bank c
  unfolding close_position_constraints holds_position
  MayClose-HoldsPosition bank c (held, passes) =
      let may = verify_position_authority-MayAct _ _ passes in
      (ground arith, ground arith, ground arith, ground arith, ground arith, may)

  burns_and_closes :
      (bank closed : Bank) (c : ClosePosition)
      → burn_and_close_user_position_token runtime bank c.position_authority c.receiver
          c.position_mint c.position_token_account
        ≡ done closed
      → BurnsAndCloses bank c closed
  unfolding burn_and_close_user_position_token
  burns_and_closes bank closed c e =
      let (burnt, burn, close) =
        bind_finishes
          (invoke
            (runtime.burn bank c.position_token_account c.position_mint c.position_authority.key 1))
          _ e in
      (burnt, invoke_finishes _ burn, invoke_finishes _ close)

  burn_never_refuses :
      (bank : Bank) (c : ClosePosition)
      → burn_and_close_user_position_token runtime bank c.position_authority c.receiver
          c.position_mint c.position_token_account
        ≡ failed (program_error close_position_not_empty)
      → ⊥
  unfolding burn_and_close_user_position_token
  burn_never_refuses bank c e =
      no_refusal
        (runtime.burn bank c.position_token_account c.position_mint c.position_authority.key 1)
        (λ burnt.
          runtime.close_account burnt c.position_token_account c.receiver c.position_authority.key)
        e

  -- A handler that comes to its test of the position has passed its guards.
  finishes-MayClose :
      (bank closed : Bank) (c : ClosePosition)
      → close_position_handler runtime bank c ≡ done closed
      → MayClose runtime bank c
  unfolding close_position_handler
  finishes-MayClose bank closed c e =
      let (u, p, e1) = bind_finishes (require (close_position_constraints runtime bank c)) _ e in
      let (v, q, e2) =
        bind_finishes
          (lift (
            verify_position_authority (runtime.token_account bank c.position_token_account)
              c.position_authority))
          _ e1 in
      (require_holds _ p, lift_returns _ q)

  refuses-MayClose :
      (bank : Bank) (c : ClosePosition)
      → close_position_handler runtime bank c ≡ failed (program_error close_position_not_empty)
      → MayClose runtime bank c
  unfolding close_position_handler
  refuses-MayClose bank c e =
      passed (close_position_constraints runtime bank c)
        (runtime.token_account bank c.position_token_account) c.position_authority _ e

  -- A position is closed exactly if the accounts are its own, the signer holds its token or is the
  -- delegate for it, nothing is left in the position or owed to it, and the token program burns that
  -- one token and then closes its account, which is the state that is returned. The handler refuses
  -- it with `ClosePositionNotEmpty` exactly if the accounts and the signer are right and something is
  -- left or owed.
  pub close_position_handler_iff :
      (bank closed : Bank) (c : ClosePosition)
      → ((close_position_handler runtime bank c ≡ done closed)
          ↔ (HoldsPosition bank c × IsEmpty c.position.content × BurnsAndCloses bank c closed))
        × ((close_position_handler runtime bank c ≡ failed (program_error close_position_not_empty))
            ↔ (HoldsPosition bank c × (IsEmpty c.position.content → ⊥)))
  unfolding burn_and_close_user_position_token
  close_position_handler_iff bank closed c = ((finishes, finishes_if), (refuses, refuses_if))
    where
      finishes :
          close_position_handler runtime bank c ≡ done closed
          → HoldsPosition bank c × IsEmpty c.position.content × BurnsAndCloses bank c closed
      finishes e =
          let may = finishes-MayClose bank closed c e in
          elim (close_position_handler-Outcomes runtime bank c may) [
            | inl (empty, same) ↦ (
              MayClose-HoldsPosition bank c may,
              empty,
              burns_and_closes bank closed c (sym same ∙ e),
            )
            | inr (not_empty, refused) ↦ absurd (not_both (sym refused ∙ e))
          ]

      finishes_if :
          HoldsPosition bank c × IsEmpty c.position.content × BurnsAndCloses bank c closed
          → close_position_handler runtime bank c ≡ done closed
      finishes_if (holds, empty, (burnt, burn, close)) =
          elim (close_position_handler-Outcomes runtime bank c
            (HoldsPosition-MayClose bank c holds)) [
              | inl (e, same) ↦ same ∙ rw (burn, close) refl
              | inr (not_empty, refused) ↦ absurd (not_empty empty)
            ]

      refuses :
          close_position_handler runtime bank c ≡ failed (program_error close_position_not_empty)
          → HoldsPosition bank c × (IsEmpty c.position.content → ⊥)
      refuses e =
          let may = refuses-MayClose bank c e in
          elim (close_position_handler-Outcomes runtime bank c may) [
            | inl (empty, same) ↦ absurd (burn_never_refuses bank c (sym same ∙ e))
            | inr (not_empty, refused) ↦ (MayClose-HoldsPosition bank c may, not_empty)
          ]

      refuses_if :
          HoldsPosition bank c × (IsEmpty c.position.content → ⊥)
          → close_position_handler runtime bank c ≡ failed (program_error close_position_not_empty)
      refuses_if (holds, not_empty) =
          elim (close_position_handler-Outcomes runtime bank c
            (HoldsPosition-MayClose bank c holds)) [
              | inl (empty, same) ↦ absurd (not_empty empty)
              | inr (e, refused) ↦ refused
            ]
