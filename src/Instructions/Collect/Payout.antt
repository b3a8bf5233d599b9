-- ===== src/Instructions/Collect/Payout.antt =====
-- What the collection of fees and rewards pays, and what it leaves owed.
use elysium_dex.Base.{
  ℕ, zero, suc, ◌+◌, ◌≤◌, ◌≡◌, ◌≢◌, ◌⊎◌, sym, ap, ◌∙◌, arith, true, Option, none, some, entry?,
}
use elysium_dex.Errors.{ok, unwrap}
use elysium_dex.State.RewardInfo.{ElysiumPoolRewardInfo}
use elysium_dex.State.Position.{Position, PositionRewardInfo, reset_fees_owed, update_reward_owed}
use elysium_dex.Util.Authority.{verify_position_authority}
use elysium_dex.Instructions.Outcome.{
  done, lift, require, invoke, bind_finishes, require_holds, done_injective, lift_returns,
}
use elysium_dex.Instructions.Runtime.{Runtime, IsTransfer, transfer_from_vault_to_owner}
use elysium_dex.Instructions.Transfers.{Exchanges, invoke_succeeds, transfers-Exchanges}
use elysium_dex.Instructions.Collect.{
  CollectFees, CollectReward, calculate_collect_reward, collect_fees_constraints,
  collect_fees_handler, reward_position_constraints, reward_token_constraints,
  collect_reward_handler,
}

-- The four token accounts are different ones.
abbrev pub AreDistinct : CollectFees → Type 0
AreDistinct c =
    (c.token_vault_a ≢ c.token_owner_account_a)
    × (c.token_vault_a ≢ c.token_vault_b)
    × (c.token_vault_a ≢ c.token_owner_account_b)
    × (c.token_owner_account_a ≢ c.token_vault_b)
    × (c.token_owner_account_a ≢ c.token_owner_account_b)
    × (c.token_vault_b ≢ c.token_owner_account_b)

-- What is paid of a reward and what stays owed: all of it, or else as much as the vault holds.
calculate_collect_reward-Splits :
    (r : PositionRewardInfo) (vault : ℕ)
    → let (paid, rest) = calculate_collect_reward r vault in
      (paid + rest ≡ r.amount_owed) × ((rest ≡ 0) ⊎ (paid ≡ vault)) × (paid ≤ vault)
unfolding calculate_collect_reward
calculate_collect_reward-Splits r vault = ground arith

is_found : {A : Type 0} (o : Option A) {a : A} → unwrap o ≡ ok a → o ≡ some a
is_found none e = cc
is_found (some a) e = grind arith

update_reward_owed-entry :
    (p p' : Position) (index amount : ℕ) (r : PositionRewardInfo)
    → entry? p.reward_infos index ≡ some r
    → update_reward_owed p index amount ≡ ok p'
    → entry? p'.reward_infos index ≡ some (record r { amount_owed = amount })
unfolding update_reward_owed
update_reward_owed-entry p p' zero amount r e u = ground arith
update_reward_owed-entry p p' (suc zero) amount r e u = ground arith
update_reward_owed-entry p p' (suc (suc zero)) amount r e u = ground arith
update_reward_owed-entry p p' (suc (suc (suc i))) amount r e u = cc

module _ {Bank : Type 0} (runtime : Runtime Bank) where
  -- Where transfers are as `IsTransfer` says, the collection of fees, between four different
  -- accounts, pays from the pool's two vaults exactly the fees that the position is owed, to the
  -- owner's two accounts and nobody else. The position is owed none afterwards, and is otherwise as
  -- it was.
  pub collect_fees_handler-Pays :
      (laws : IsTransfer runtime) (bank : Bank) (c : CollectFees) (result : Bank × Position)
      → AreDistinct c
      → collect_fees_handler runtime bank c ≡ done result
      → (c.token_vault_a ≡ c.pool.content.token_vault_a)
        × (c.token_vault_b ≡ c.pool.content.token_vault_b)
        × Exchanges runtime bank result.0 c.token_vault_a c.token_owner_account_a c.token_vault_b
            c.token_owner_account_b c.position.fee_owed_a c.position.fee_owed_b
        × (result.1 ≡ record c.position { fee_owed_a = 0; fee_owed_b = 0 })
  unfolding collect_fees_handler transfer_from_vault_to_owner collect_fees_constraints
      reset_fees_owed
  collect_fees_handler-Pays laws bank c result (d1, d2, d3, d4, d5, d6) e =
      let (u, allowed, e1) =
        bind_finishes (require (collect_fees_constraints runtime bank c)) _ e in
      let (v, verified, e2) =
        bind_finishes
          (lift (
            verify_position_authority (runtime.token_account bank c.position_token_account)
              c.position_authority))
          _ e1 in
      let (paid_a, p, e3) =
        bind_finishes
          (invoke (
            runtime.transfer bank c.token_vault_a c.token_owner_account_a c.pool.key
              c.position.fee_owed_a))
          _ e2 in
      let (paid_b, q, e4) =
        bind_finishes
          (invoke (
            runtime.transfer paid_a c.token_vault_b c.token_owner_account_b c.pool.key
              c.position.fee_owed_b))
          _ e3 in
      let same = done_injective e4 in
      (
        ground arith,
        ground arith,
        transfers-Exchanges runtime laws bank paid_a result.0 _ _ _ _ _ _ _ _ (d1, d2, d3)
            (d4, d5, d6) (invoke_succeeds _ p) (invoke_succeeds _ q ∙ ap (λ z. some z.0) same),
        sym (ap (λ z. z.1) same),
      )

  -- What a reward's collection that finishes has done: the reward of the pool, what the position
  -- was owed of it, and the position that is left.
  abbrev IsRewardRun :
      Bank
      → CollectReward
      → ℕ
      → Bank × Position
      → ElysiumPoolRewardInfo
      → PositionRewardInfo
      → Type 0
  IsRewardRun bank c index result reward owed =
      let split =
        calculate_collect_reward owed (runtime.token_account bank c.reward_vault).amount in
      (entry? c.pool.content.reward_infos index ≡ some reward)
      × (reward_token_constraints runtime bank c reward ≡ true)
      × (entry? c.position.reward_infos index ≡ some owed)
      × (update_reward_owed c.position index split.1 ≡ ok result.1)
      × (runtime.transfer bank c.reward_vault c.reward_owner_account c.pool.key split.0
          ≡ some result.0)

  collect_reward_handler-inverts :
      (bank : Bank) (c : CollectReward) (index : ℕ) (result : Bank × Position)
      → collect_reward_handler runtime bank c index ≡ done result
      → (reward : ElysiumPoolRewardInfo) × (owed : PositionRewardInfo) × IsRewardRun bank c index
          result reward owed
  unfolding collect_reward_handler transfer_from_vault_to_owner
  collect_reward_handler-inverts bank c index result e =
      let (u1, a1, e1) = bind_finishes (require (reward_position_constraints runtime bank c)) _ e in
      let (reward, a2, e2) =
        bind_finishes (lift (unwrap (entry? c.pool.content.reward_infos index))) _ e1 in
      let (u3, a3, e3) =
        bind_finishes (require (reward_token_constraints runtime bank c reward)) _ e2 in
      let (u4, a4, e4) =
        bind_finishes
          (lift (
            verify_position_authority (runtime.token_account bank c.position_token_account)
              c.position_authority))
          _ e3 in
      let (owed, a5, e5) =
        bind_finishes (lift (unwrap (entry? c.position.reward_infos index))) _ e4 in
      let split =
        calculate_collect_reward owed (runtime.token_account bank c.reward_vault).amount in
      let (position, a6, e6) =
        bind_finishes (lift (update_reward_owed c.position index split.1)) _ e5 in
      let (paid, a7, e7) =
        bind_finishes
          (invoke (runtime.transfer bank c.reward_vault c.reward_owner_account c.pool.key split.0))
          _ e6 in
      let same = done_injective e7 in
      (
        reward,
        owed,
        (
          is_found _ (lift_returns _ a2),
          require_holds _ a3,
          is_found _ (lift_returns _ a5),
          lift_returns _ a6 ∙ ap (λ z. ok z.1) same,
          invoke_succeeds _ a7 ∙ ap (λ z. some z.0) same,
        ),
      )

  -- What the collection of a reward pays, and what it leaves: of the vault of the pool's reward,
  -- as much as the position is owed or the vault holds.
  abbrev pub PaysReward : Bank → CollectReward → (index : ℕ) → Bank × Position → Type 0
  PaysReward bank c index result =
      (reward : ElysiumPoolRewardInfo) × (owed : PositionRewardInfo) × (paid : ℕ) × (rest : ℕ)
      × (entry? c.pool.content.reward_infos index ≡ some reward)
      × (c.reward_vault ≡ reward.vault)
      × (entry? c.position.reward_infos index ≡ some owed)
      × (entry? result.1.reward_infos index ≡ some (record owed { amount_owed = rest }))
      × (paid + rest ≡ owed.amount_owed)
      × ((rest ≡ 0) ⊎ (paid ≡ (runtime.token_account bank c.reward_vault).amount))
      × ((runtime.token_account result.0 c.reward_vault).amount + paid
          ≡ (runtime.token_account bank c.reward_vault).amount)
      × ((runtime.token_account result.0 c.reward_owner_account).amount
          ≡ (runtime.token_account bank c.reward_owner_account).amount + paid)
      × ((other : ℕ)
          → other ≢ c.reward_vault
          → other ≢ c.reward_owner_account
          → (runtime.token_account result.0 other).amount
            ≡ (runtime.token_account bank other).amount)

  -- Where transfers are as `IsTransfer` says, the collection of a reward that finishes, from a
  -- vault that is not the account it pays to, pays from the vault of the pool's reward to the
  -- owner's account, and changes no other. What is paid and what stays owed add up to what was
  -- owed; something stays owed only if the vault is emptied.
  pub collect_reward_handler-Pays :
      (laws : IsTransfer runtime) (bank : Bank) (c : CollectReward) (index : ℕ)
      (result : Bank × Position)
      → c.reward_vault ≢ c.reward_owner_account
      → collect_reward_handler runtime bank c index ≡ done result
      → PaysReward bank c index result
  unfolding reward_token_constraints
  collect_reward_handler-Pays laws bank c index result distinct e =
      let (reward, owed, (at_pool, tokens, at_position, updated, sent)) =
        collect_reward_handler-inverts bank c index result e in
      let split =
        calculate_collect_reward owed (runtime.token_account bank c.reward_vault).amount in
      let (sum, left, within) = calculate_collect_reward-Splits owed _ in
      let (from_vault, to_owner) =
        laws.pays bank result.0 c.reward_vault c.reward_owner_account c.pool.key split.0 sent
          distinct in
      (
        reward,
        owed,
        split.0,
        split.1,
        at_pool,
        ground arith,
        at_position,
        update_reward_owed-entry c.position result.1 index split.1 owed at_position updated,
        sum,
        left,
        from_vault,
        to_owner,
        λ other f g. laws.keeps bank result.0 _ _ _ split.0 other sent f g,
      )
