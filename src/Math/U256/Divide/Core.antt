-- ===== src/Math/U256/Divide/Core.antt =====
-- One digit of the long division, from the estimate on.
use elysium_dex.Base.{
  ℕ, ◌+◌, ◌*◌, ◌/◌, ◌≤◌, ◌<◌, ◌≡◌, inl, inr, sym, subst, arith, Option, some, ltb, false,
  Bool-cases, ltb→lt,
}
use elysium_dex.Base.Words.{u64_mod, mul_u128}
use elysium_dex.Math.U256.{hi_lo, lo}
use elysium_dex.Math.U256.Divide.{adjust_qhat}
use elysium_dex.Math.U256.Divide.Estimate.{
  Tops, AreTops, Within, first_estimate, first_rest, estimate-IsDigit,
}
use elysium_dex.Math.U256.Divide.Rows.{Subtracts, Restores}
use elysium_dex.Math.U256.Divide.Digit.{Corrected, keeps_digit, lowers_digit}
use elysium_dex.Math.U256.Divide.Bounds.{
  divisor_of, dividend_of, product-Within, Within-product, quotient-small, quotient-le, below_next,
}

-- What `div_loop` finds of the top words.
abbrev pub found_estimate : Tops → Option ℕ
found_estimate t =
    adjust_qhat 3 t.d1 t.d2 (first_estimate t) (first_rest t) (hi_lo (lo (first_rest t)) t.x0)
      (mul_u128 (first_estimate t) t.d2)

not_below : (a b : ℕ) → ltb a b ≡ false → b ≤ a
not_below a b e = grind arith

-- The weight `p` of the head, the number `x` below it, and what the two rows make of an estimate.
module _ (t : Tops) (r low below v p x : ℕ) (s k a carry : ℕ → ℕ) where
  pub step-Corrected :
      AreTops t
      → low < r
      → below < r
      → v ≡ divisor_of t r low
      → x + p * t.x2 ≡ dividend_of t r below
      → 0 < v
      → v ≤ p
      → x + p * t.x2 < u64_mod * v
      → ((q : ℕ) → q < u64_mod → Subtracts p x (q * v) (s q) (k q))
      → ((q : ℕ) → q < u64_mod → Restores p (s q) v (a q) (carry q))
      → (q : ℕ) × (found_estimate t ≡ some q)
        × (q < u64_mod)
        × Within t q
        × Corrected (x + p * t.x2) v t.x2 q (s q) (k q) (a q) (carry q)
  step-Corrected tops hl hb ev ew hv room small subtracts restores =
      let w : ℕ = x + p * t.x2 in
      let guess : ℕ = w / v in
      let (g1, g2, g3, g4, g5, g6) = tops in
      let within : Within t guess = product-Within t r low below guess hb (
        subst (λ y. guess * y ≤ dividend_of t r below) ev
          (subst (λ y. guess * v ≤ y) ew (quotient-le w v))) in
      let (q, found, hq, inside, le) =
        estimate-IsDigit t guess tops (quotient-small w v hv small) within in
      let upper = below_next w v q hv le in
      let lower : q * v ≤ w + v =
        subst (λ y. q * v ≤ y + v) (sym ew)
          (subst (λ y. q * y ≤ dividend_of t r below + y) (sym ev)
            (Within-product t r low below q tops hl hq inside)) in
      (
        q,
        found,
        hq,
        inside,
        elim (Bool-cases (ltb t.x2 (k q))) [
          | inl borrows ↦
              lowers_digit p v x t.x2 q (s q) (k q) (a q) (carry q) (ltb→lt _ _ borrows) room
                (omega arith) hq (subtracts q hq) (restores q hq) lower borrows
          | inr covers ↦
              keeps_digit p v x t.x2 q (s q) (k q) (a q) (carry q) (not_below _ _ covers) room
                (omega arith) hq (subtracts q hq) upper covers
        ],
      )
