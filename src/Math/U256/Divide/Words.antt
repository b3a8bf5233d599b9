-- ===== src/Math/U256/Divide/Words.antt =====
-- The digit for a divisor of two, three and four words.
use elysium_dex.Base.{ℕ, ◌+◌, ◌*◌, ◌^◌, ◌≤◌, ◌<◌, ◌≡◌, arith, some}
use elysium_dex.Base.Words.{u64_mod}
use elysium_dex.Math.U256.Divide.Estimate.{Tops, Within}
use elysium_dex.Math.U256.Divide.Rows.{
  two_words, three_words, four_words, subtract_2, subtract_3, subtract_4, restore_2, restore_3,
  restore_4, subtract_2-Subtracts, subtract_3-Subtracts, subtract_4-Subtracts, restore_2-Restores,
  restore_3-Restores, restore_4-Restores,
}
use elysium_dex.Math.U256.Divide.Digit.{Corrected}
use elysium_dex.Math.U256.Divide.Core.{found_estimate, step-Corrected}

abbrev pub tops : (d1 d2 x2 x1 x0 : ℕ) → Tops
tops d1 d2 x2 x1 x0 = record { d1 = d1; d2 = d2; x2 = x2; x1 = x1; x0 = x0 }

abbrev pub Words2 : ℕ × ℕ → Type 0
Words2 (a, b) = (a < u64_mod) × (b < u64_mod)

abbrev pub Words3 : ℕ × ℕ × ℕ → Type 0
Words3 (a, b, c) = (a < u64_mod) × (b < u64_mod) × (c < u64_mod)

abbrev pub Words4 : ℕ × ℕ × ℕ × ℕ → Type 0
Words4 (a, b, c, d) = (a < u64_mod) × (b < u64_mod) × (c < u64_mod) × (d < u64_mod)

-- What an estimate `q` leads to.
abbrev pub Digit2 : (x0 x1 x2 y0 y1 q : ℕ) → Type 0
Digit2 x0 x1 x2 y0 y1 q =
    let s = subtract_2 q x0 x1 y0 y1 in
    let a = restore_2 s.0 s.1 y0 y1 in
    Corrected (two_words x0 x1 + 2 ^ 128 * x2) (two_words y0 y1) x2 q (two_words s.0 s.1) s.2
      (two_words a.0 a.1) a.2
    × Words2 (s.0, s.1)
    × Words2 (a.0, a.1)

pub corrected_2 :
    (x0 x1 x2 y0 y1 : ℕ)
    → Words2 (x0, x1)
    → Words2 (y0, y1)
    → 2 ^ 63 ≤ y1
    → two_words x0 x1 + 2 ^ 128 * x2 < u64_mod * (two_words y0 y1)
    → (q : ℕ) × (found_estimate (tops y1 y0 x2 x1 x0) ≡ some q)
      × (q < u64_mod)
      × Within (tops y1 y0 x2 x1 x0) q
      × Digit2 x0 x1 x2 y0 y1 q
corrected_2 x0 x1 x2 y0 y1 (h0, h1) (g0, g1) top small =
    let subtracts =
      λ (q : ℕ) (hq : q < u64_mod). subtract_2-Subtracts q x0 x1 y0 y1 hq h0 h1 g0 g1 in
    let restores = λ (q : ℕ) (hq : q < u64_mod).
      restore_2-Restores (subtract_2 q x0 x1 y0 y1).0 (subtract_2 q x0 x1 y0 y1).1 y0 y1
        (subtracts q hq).1 (subtracts q hq).2 g0 g1 in
    let (q, found, hq, within, corrected) =
      step-Corrected (tops y1 y0 x2 x1 x0) 1 0 0 (two_words y0 y1) (2 ^ 128) (two_words x0 x1)
        (λ q. two_words (subtract_2 q x0 x1 y0 y1).0 (subtract_2 q x0 x1 y0 y1).1)
        (λ q. (subtract_2 q x0 x1 y0 y1).2)
        (λ q.
          two_words (restore_2 (subtract_2 q x0 x1 y0 y1).0 (subtract_2 q x0 x1 y0 y1).1 y0 y1).0
            (restore_2 (subtract_2 q x0 x1 y0 y1).0 (subtract_2 q x0 x1 y0 y1).1 y0 y1).1)
        (λ q. (restore_2 (subtract_2 q x0 x1 y0 y1).0 (subtract_2 q x0 x1 y0 y1).1 y0 y1).2)
        (top, g1, g0, omega arith, h1, h0) (omega arith) (omega arith) (omega arith) (omega arith)
        (omega arith) (omega arith) small (λ q hq. (subtracts q hq).0)
        (λ q hq. (restores q hq).0) in
    (
      q,
      found,
      hq,
      within,
      (corrected, ((subtracts q hq).1, (subtracts q hq).2), ((restores q hq).1, (restores q hq).2)),
    )

-- What an estimate `q` leads to.
abbrev pub Digit3 : (x0 x1 x2 x3 y0 y1 y2 q : ℕ) → Type 0
Digit3 x0 x1 x2 x3 y0 y1 y2 q =
    let s = subtract_3 q x0 x1 x2 y0 y1 y2 in
    let a = restore_3 s.0 s.1 s.2 y0 y1 y2 in
    Corrected (three_words x0 x1 x2 + 2 ^ 192 * x3) (three_words y0 y1 y2) x3 q
      (three_words s.0 s.1 s.2) s.3 (three_words a.0 a.1 a.2) a.3
    × Words3 (s.0, s.1, s.2)
    × Words3 (a.0, a.1, a.2)

pub corrected_3 :
    (x0 x1 x2 x3 y0 y1 y2 : ℕ)
    → Words3 (x0, x1, x2)
    → Words3 (y0, y1, y2)
    → 2 ^ 63 ≤ y2
    → three_words x0 x1 x2 + 2 ^ 192 * x3 < u64_mod * (three_words y0 y1 y2)
    → (q : ℕ) × (found_estimate (tops y2 y1 x3 x2 x1) ≡ some q)
      × (q < u64_mod)
      × Within (tops y2 y1 x3 x2 x1) q
      × Digit3 x0 x1 x2 x3 y0 y1 y2 q
corrected_3 x0 x1 x2 x3 y0 y1 y2 (h0, h1, h2) (g0, g1, g2) top small =
    let subtracts =
      λ (q : ℕ) (hq : q < u64_mod). subtract_3-Subtracts q x0 x1 x2 y0 y1 y2 hq h0 h1 h2 g0 g1 g2 in
    let restores = λ (q : ℕ) (hq : q < u64_mod).
      restore_3-Restores (subtract_3 q x0 x1 x2 y0 y1 y2).0 (subtract_3 q x0 x1 x2 y0 y1 y2).1
        (subtract_3 q x0 x1 x2 y0 y1 y2).2 y0 y1 y2 (subtracts q hq).1 (subtracts q hq).2
        (subtracts q hq).3 g0 g1 g2 in
    let (q, found, hq, within, corrected) =
      step-Corrected (tops y2 y1 x3 x2 x1) u64_mod y0 x0 (three_words y0 y1 y2) (2 ^ 192)
        (three_words x0 x1 x2)
        (λ q.
          three_words (subtract_3 q x0 x1 x2 y0 y1 y2).0 (subtract_3 q x0 x1 x2 y0 y1 y2).1
            (subtract_3 q x0 x1 x2 y0 y1 y2).2)
        (λ q. (subtract_3 q x0 x1 x2 y0 y1 y2).3)
        (λ q.
          three_words
            (restore_3 (subtract_3 q x0 x1 x2 y0 y1 y2).0 (subtract_3 q x0 x1 x2 y0 y1 y2).1
              (subtract_3 q x0 x1 x2 y0 y1 y2).2 y0 y1 y2).0
            (restore_3 (subtract_3 q x0 x1 x2 y0 y1 y2).0 (subtract_3 q x0 x1 x2 y0 y1 y2).1
              (subtract_3 q x0 x1 x2 y0 y1 y2).2 y0 y1 y2).1
            (restore_3 (subtract_3 q x0 x1 x2 y0 y1 y2).0 (subtract_3 q x0 x1 x2 y0 y1 y2).1
              (subtract_3 q x0 x1 x2 y0 y1 y2).2 y0 y1 y2).2)
        (λ q.
          (restore_3 (subtract_3 q x0 x1 x2 y0 y1 y2).0 (subtract_3 q x0 x1 x2 y0 y1 y2).1
            (subtract_3 q x0 x1 x2 y0 y1 y2).2 y0 y1 y2).3)
        (top, g2, g1, omega arith, h2, h1) (omega arith) (omega arith) (omega arith) (omega arith)
        (omega arith) (omega arith) small (λ q hq. (subtracts q hq).0)
        (λ q hq. (restores q hq).0) in
    (
      q,
      found,
      hq,
      within,
      (
        corrected,
        ((subtracts q hq).1, (subtracts q hq).2, (subtracts q hq).3),
        ((restores q hq).1, (restores q hq).2, (restores q hq).3),
      ),
    )

-- What an estimate `q` leads to.
abbrev pub Digit4 : (x0 x1 x2 x3 x4 y0 y1 y2 y3 q : ℕ) → Type 0
Digit4 x0 x1 x2 x3 x4 y0 y1 y2 y3 q =
    let s = subtract_4 q x0 x1 x2 x3 y0 y1 y2 y3 in
    let a = restore_4 s.0 s.1 s.2 s.3 y0 y1 y2 y3 in
    Corrected (four_words x0 x1 x2 x3 + 2 ^ 256 * x4) (four_words y0 y1 y2 y3) x4 q
      (four_words s.0 s.1 s.2 s.3) s.4 (four_words a.0 a.1 a.2 a.3) a.4
    × Words4 (s.0, s.1, s.2, s.3)
    × Words4 (a.0, a.1, a.2, a.3)

pub corrected_4 :
    (x0 x1 x2 x3 x4 y0 y1 y2 y3 : ℕ)
    → Words4 (x0, x1, x2, x3)
    → Words4 (y0, y1, y2, y3)
    → 2 ^ 63 ≤ y3
    → four_words x0 x1 x2 x3 + 2 ^ 256 * x4 < u64_mod * (four_words y0 y1 y2 y3)
    → (q : ℕ) × (found_estimate (tops y3 y2 x4 x3 x2) ≡ some q)
      × (q < u64_mod)
      × Within (tops y3 y2 x4 x3 x2) q
      × Digit4 x0 x1 x2 x3 x4 y0 y1 y2 y3 q
corrected_4 x0 x1 x2 x3 x4 y0 y1 y2 y3 (h0, h1, h2, h3) (g0, g1, g2, g3) top small =
    let subtracts = λ (q : ℕ) (hq : q < u64_mod).
      subtract_4-Subtracts q x0 x1 x2 x3 y0 y1 y2 y3 hq h0 h1 h2 h3 g0 g1 g2 g3 in
    let restores = λ (q : ℕ) (hq : q < u64_mod).
      restore_4-Restores (subtract_4 q x0 x1 x2 x3 y0 y1 y2 y3).0
        (subtract_4 q x0 x1 x2 x3 y0 y1 y2 y3).1 (subtract_4 q x0 x1 x2 x3 y0 y1 y2 y3).2
        (subtract_4 q x0 x1 x2 x3 y0 y1 y2 y3).3 y0 y1 y2 y3 (subtracts q hq).1 (subtracts q hq).2
        (subtracts q hq).3 (subtracts q hq).4 g0 g1 g2 g3 in
    let (q, found, hq, within, corrected) =
      step-Corrected (tops y3 y2 x4 x3 x2) (2 ^ 128) (two_words y0 y1) (two_words x0 x1)
        (four_words y0 y1 y2 y3) (2 ^ 256) (four_words x0 x1 x2 x3)
        (λ q.
          four_words (subtract_4 q x0 x1 x2 x3 y0 y1 y2 y3).0
            (subtract_4 q x0 x1 x2 x3 y0 y1 y2 y3).1 (subtract_4 q x0 x1 x2 x3 y0 y1 y2 y3).2
            (subtract_4 q x0 x1 x2 x3 y0 y1 y2 y3).3)
        (λ q. (subtract_4 q x0 x1 x2 x3 y0 y1 y2 y3).4)
        (λ q.
          four_words
            (restore_4 (subtract_4 q x0 x1 x2 x3 y0 y1 y2 y3).0
              (subtract_4 q x0 x1 x2 x3 y0 y1 y2 y3).1 (subtract_4 q x0 x1 x2 x3 y0 y1 y2 y3).2
              (subtract_4 q x0 x1 x2 x3 y0 y1 y2 y3).3 y0 y1 y2 y3).0
            (restore_4 (subtract_4 q x0 x1 x2 x3 y0 y1 y2 y3).0
              (subtract_4 q x0 x1 x2 x3 y0 y1 y2 y3).1 (subtract_4 q x0 x1 x2 x3 y0 y1 y2 y3).2
              (subtract_4 q x0 x1 x2 x3 y0 y1 y2 y3).3 y0 y1 y2 y3).1
            (restore_4 (subtract_4 q x0 x1 x2 x3 y0 y1 y2 y3).0
              (subtract_4 q x0 x1 x2 x3 y0 y1 y2 y3).1 (subtract_4 q x0 x1 x2 x3 y0 y1 y2 y3).2
              (subtract_4 q x0 x1 x2 x3 y0 y1 y2 y3).3 y0 y1 y2 y3).2
            (restore_4 (subtract_4 q x0 x1 x2 x3 y0 y1 y2 y3).0
              (subtract_4 q x0 x1 x2 x3 y0 y1 y2 y3).1 (subtract_4 q x0 x1 x2 x3 y0 y1 y2 y3).2
              (subtract_4 q x0 x1 x2 x3 y0 y1 y2 y3).3 y0 y1 y2 y3).3)
        (λ q.
          (restore_4 (subtract_4 q x0 x1 x2 x3 y0 y1 y2 y3).0
            (subtract_4 q x0 x1 x2 x3 y0 y1 y2 y3).1 (subtract_4 q x0 x1 x2 x3 y0 y1 y2 y3).2
            (subtract_4 q x0 x1 x2 x3 y0 y1 y2 y3).3 y0 y1 y2 y3).4)
        (top, g3, g2, omega arith, h3, h2) (omega arith) (omega arith) (omega arith) (omega arith)
        (omega arith) (omega arith) small (λ q hq. (subtracts q hq).0)
        (λ q hq. (restores q hq).0) in
    (
      q,
      found,
      hq,
      within,
      (
        corrected,
        ((subtracts q hq).1, (subtracts q hq).2, (subtracts q hq).3, (subtracts q hq).4),
        ((restores q hq).1, (restores q hq).2, (restores q hq).3, (restores q hq).4),
      ),
    )
