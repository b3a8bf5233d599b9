-- ===== src/Instructions/Positions/Closing.antt =====
-- When a position may be closed.
use elysium_dex.Base.{
  ◌⊎◌, inl, inr, sym, ◌∙◌, subst, Bool-cases, ◌≡◌, refl, arith, Bool, true, false, some,
}
use elysium_dex.Errors.{ok, close_position_not_empty}
use elysium_dex.State.Position.{Position, is_position_empty}
use elysium_dex.Util.Authority.{verify_position_authority}
use elysium_dex.Instructions.Outcome.{done, failed, program_error}
use elysium_dex.Instructions.Runtime.{Runtime, IsTransfer, burn_and_close_user_position_token}
use elysium_dex.Instructions.Collect.{CollectFees, collect_fees_handler}
use elysium_dex.Instructions.Collect.Payout.{AreDistinct, collect_fees_handler-Pays}
use elysium_dex.Instructions.Positions.{
  ClosePosition, close_position_constraints, close_position_handler,
}

-- Nothing is left of the position, and nothing is owed to it.
abbrev pub IsEmpty : Position → Type 0
IsEmpty p =
    (p.liquidity ≡ 0)
    × (p.fee_owed_a ≡ 0)
    × (p.fee_owed_b ≡ 0)
    × (p.reward_infos.at_0.amount_owed ≡ 0)
    × (p.reward_infos.at_1.amount_owed ≡ 0)
    × (p.reward_infos.at_2.amount_owed ≡ 0)

is_position_empty-IsEmpty : (p : Position) → is_position_empty p ≡ true → IsEmpty p
unfolding is_position_empty
is_position_empty-IsEmpty p e = ground arith

IsEmpty-is_position_empty : (p : Position) → IsEmpty p → is_position_empty p ≡ true
unfolding is_position_empty
IsEmpty-is_position_empty p (a, b, c, d, e, f) = rw (a, b, c, d, e, f) refl

not_both : (b : Bool) → b ≡ true → b ≡ false → ⊥
not_both b p q = grind arith

module _ {Bank : Type 0} (runtime : Runtime Bank) where
  -- A caller that may close a position.
  abbrev pub MayClose : Bank → ClosePosition → Type 0
  MayClose bank c =
      (close_position_constraints runtime bank c ≡ true)
      × (verify_position_authority (runtime.token_account bank c.position_token_account)
            c.position_authority
          ≡ ok tt)

  -- For a caller that may close it, a position of which something is left or owed is refused with
  -- `ClosePositionNotEmpty`; for an empty one the outcome is that of
  -- `burn_and_close_user_position_token`.
  pub close_position_handler-Outcomes :
      (bank : Bank) (c : ClosePosition)
      → MayClose bank c
      → (IsEmpty c.position.content
          × (close_position_handler runtime bank c
              ≡ burn_and_close_user_position_token runtime bank c.position_authority c.receiver
                  c.position_mint c.position_token_account))
        ⊎ ((IsEmpty c.position.content → ⊥)
            × (close_position_handler runtime bank c
                ≡ failed (program_error close_position_not_empty)))
  unfolding close_position_handler
  close_position_handler-Outcomes bank c (a, b) =
      elim (Bool-cases (is_position_empty c.position.content)) [
        | inl e ↦ inl (is_position_empty-IsEmpty _ e, rw (a, b, e) refl)
        | inr e ↦ inr (λ empty. not_both _ (IsEmpty-is_position_empty _ empty) e, rw (a, b, e) refl)
      ]

  -- Where transfers are as `IsTransfer` says and the fees go between four different accounts, a
  -- position that has no liquidity and is owed no reward can be closed once its fees have been
  -- collected, however much they were: the instruction finishes if its caller may close the
  -- position, and the token program burns the token and closes its account.
  pub collect_fees-close_position :
      (laws : IsTransfer runtime) (bank : Bank) (collect : CollectFees)
      (collected : Bank × Position) (c : ClosePosition) (burnt closed : Bank)
      → AreDistinct collect
      → collect.position.liquidity ≡ 0
      → (collect.position.reward_infos.at_0.amount_owed ≡ 0)
        × (collect.position.reward_infos.at_1.amount_owed ≡ 0)
        × (collect.position.reward_infos.at_2.amount_owed ≡ 0)
      → collect_fees_handler runtime bank collect ≡ done collected
      → c.position.content ≡ collected.1
      → MayClose collected.0 c
      → runtime.burn collected.0 c.position_token_account c.position_mint c.position_authority.key 1
        ≡ some burnt
      → runtime.close_account burnt c.position_token_account c.receiver c.position_authority.key
        ≡ some closed
      → close_position_handler runtime collected.0 c ≡ done closed
  unfolding burn_and_close_user_position_token
  collect_fees-close_position laws bank collect collected c burnt closed distinct none_left
        (r0, r1, r2) run at may burn close =
      let (vault_a, vault_b, moved, left) =
        collect_fees_handler-Pays runtime laws bank collect collected distinct run in
      let empty : IsEmpty c.position.content =
        subst IsEmpty (sym (at ∙ left)) (none_left, refl, refl, r0, r1, r2) in
      elim (close_position_handler-Outcomes collected.0 c may) [
        | inl (e, same) ↦ same ∙ rw (burn, close) refl
        | inr (not_empty, refused) ↦ elim (not_empty empty) [ ]
      ]
