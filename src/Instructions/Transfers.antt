-- ===== src/Instructions/Transfers.antt =====
-- What the transfers of an instruction do to the token accounts.
use elysium_dex.Base.{ℕ, ◌+◌, ◌≡◌, ◌≢◌, sym, ap, ◌∙◌, arith, Option, none, some}
use elysium_dex.Instructions.Outcome.{done, invoke}
use elysium_dex.Instructions.Runtime.{Runtime, IsTransfer}

pub invoke_succeeds : {A : Type 0} (o : Option A) {a : A} → invoke o ≡ done a → o ≡ some a
invoke_succeeds none e = cc
invoke_succeeds (some a) e = grind arith

module _ {Bank : Type 0} (runtime : Runtime Bank) where
  -- Two payments, and no other account changes.
  abbrev pub Exchanges :
      Bank → Bank → (from_1 to_1 from_2 to_2 : ℕ) → (amount_1 amount_2 : ℕ) → Type 0
  Exchanges bank bank' from_in to_in from_out to_out paid received =
      ((runtime.token_account bank' from_in).amount + paid
        ≡ (runtime.token_account bank from_in).amount)
      × ((runtime.token_account bank' to_in).amount
          ≡ (runtime.token_account bank to_in).amount + paid)
      × ((runtime.token_account bank' from_out).amount + received
          ≡ (runtime.token_account bank from_out).amount)
      × ((runtime.token_account bank' to_out).amount
          ≡ (runtime.token_account bank to_out).amount + received)
      × ((other : ℕ)
          → other ≢ from_in
          → other ≢ to_in
          → other ≢ from_out
          → other ≢ to_out
          → (runtime.token_account bank' other).amount ≡ (runtime.token_account bank other).amount)

  pub transfers-Exchanges :
      (laws : IsTransfer runtime) (bank middle bank' : Bank)
      (from_in to_in key_in from_out to_out key_out paid received : ℕ)
      → (from_in ≢ to_in) × (from_in ≢ from_out) × (from_in ≢ to_out)
      → (to_in ≢ from_out) × (to_in ≢ to_out) × (from_out ≢ to_out)
      → runtime.transfer bank from_in to_in key_in paid ≡ some middle
      → runtime.transfer middle from_out to_out key_out received ≡ some bank'
      → Exchanges bank bank' from_in to_in from_out to_out paid received
  transfers-Exchanges laws bank middle bank' fi ti ki fo to ko paid received (a, b, c) (d, e, f) h
        k =
      let (p, q) = laws.pays bank middle fi ti ki paid h a in
      let (r, s) = laws.pays middle bank' fo to ko received k f in
      let before = λ (other : ℕ). laws.keeps bank middle fi ti ki paid other h in
      let after = λ (other : ℕ). laws.keeps middle bank' fo to ko received other k in
      (
        ap (λ n. n + paid) (after fi b c) ∙ p,
        after ti d e ∙ q,
        r ∙ before fo (λ g. b (sym g)) (λ g. d (sym g)),
        s ∙ ap (λ n. n + received) (before to (λ g. c (sym g)) (λ g. e (sym g))),
        λ other x y z w. after other z w ∙ before other x y,
      )
