-- ===== src/Math/U256/Divide/Exact.antt =====
-- `div` against division of numbers.
use elysium_dex.Base.{
  ℕ, ◌^◌, ◌≤◌, ◌<◌, ◌≡◌, ◌⊎◌, inl, inr, refl, subst, arith, Bool, true, false, not, ltb, ◌==◌,
  if◌then◌else◌, by_branch,
}
use elysium_dex.Errors.{Result, ok, panic}
use elysium_dex.Math.U256.{U256Muldiv, items, zero_u256, num_words}
use elysium_dex.Math.U256.Value.{value, AreWords}
use elysium_dex.Math.U256.Divide.{div, div_u128, div_word, div_normalised}
use elysium_dex.Math.U256.Divide.Normalised.{
  normalised_3_2, normalised_3_3, normalised_4_2, normalised_4_3, normalised_4_4,
}
use elysium_dex.Math.U256.Divide.Scaled.{Divides, IsOverestimated}
use elysium_dex.Math.U256.Divide.Short.{as_division, word_3, word_4, two_by_two}

-- A number with the count of its words.
data Sized : U256Muldiv → ℕ → Type 0 where
  size_0 : Sized (items 0 0 0 0) 0
  size_1 : (a : ℕ) → 0 < a → Sized (items a 0 0 0) 1
  size_2 : (a b : ℕ) → 0 < b → Sized (items a b 0 0) 2
  size_3 : (a b c : ℕ) → 0 < c → Sized (items a b c 0) 3
  size_4 : (a b c d : ℕ) → 0 < d → Sized (items a b c d) 4

is_zero_word : (a : ℕ) → not (a == 0) ≡ false → 0 ≡ a
is_zero_word a e = grind arith

num_words-Sized : (a b c d : ℕ) → Sized (items a b c d) (num_words (items a b c d))
unfolding num_words
num_words-Sized a b c d =
    by_branch (Sized (items a b c d)) (not (d == 0)) (λ top. size_4 a b c d (grind arith))
      λ low_3.
        subst (λ d. Sized (items a b c d) (below_3 a b c)) (is_zero_word d low_3)
          (by_branch (Sized (items a b c 0)) (not (c == 0)) (λ top. size_3 a b c (grind arith))
            λ low_2.
              subst (λ c. Sized (items a b c 0) (below_2 a b)) (is_zero_word c low_2)
                (by_branch (Sized (items a b 0 0)) (not (b == 0)) (λ top. size_2 a b (grind arith))
                  λ low_1.
                    subst (λ b. Sized (items a b 0 0) (below_1 a)) (is_zero_word b low_1)
                      (by_branch (Sized (items a 0 0 0)) (not (a == 0))
                        (λ top. size_1 a (grind arith))
                        λ low_0.
                          subst (λ a. Sized (items a 0 0 0) 0) (is_zero_word a low_0) size_0)))
  where
    below_1 : ℕ → ℕ
    below_1 a = if not (a == 0) then 1 else 0

    below_2 : ℕ → ℕ → ℕ
    below_2 a b = if not (b == 0) then 2 else below_1 a

    below_3 : ℕ → ℕ → ℕ → ℕ
    below_3 a b c = if not (c == 0) then 3 else below_2 a b

-- `div`, given the counts.
abbrev div_at : (m n : ℕ) → (u v : U256Muldiv) → Bool → Result (U256Muldiv × U256Muldiv)
div_at m n dividend divisor return_remainder =
    if n == 0
    then panic
    else if m == 0
    then ok (zero_u256, zero_u256)
    else if ltb m n
    then ok (zero_u256, if return_remainder then dividend else zero_u256)
    else if ltb m 3
    then div_u128 dividend divisor return_remainder
    else if n == 1
    then div_word m dividend divisor return_remainder
    else div_normalised m n dividend divisor return_remainder

-- A division by zero panics; another divides, or panics, which it does only for four words by three
-- or more, and where the top words of the two, shifted, overestimate the quotient.
abbrev pub Outcomes : (u v : U256Muldiv) → Bool → Result (U256Muldiv × U256Muldiv) → Type 0
Outcomes u v return_remainder result =
    ((value v ≡ 0) × (result ≡ panic))
    ⊎ (((0 < value v) × Divides u v return_remainder result)
        ⊎ ((result ≡ panic) × (2 ^ 192 ≤ value u) × (2 ^ 128 ≤ value v) × IsOverestimated u v))

zero-AreWords : AreWords zero_u256
zero-AreWords = (omega arith, omega arith, omega arith, omega arith)

-- A dividend below the divisor.
smaller :
    (u v : U256Muldiv) (flag : Bool)
    → AreWords u
    → value u < value v
    → Outcomes u v flag (ok (zero_u256, if flag then u else zero_u256))
smaller u v flag hu less = inr (
    inl (
      omega arith,
      as_division u v flag zero_u256 u _ (omega arith) zero-AreWords hu (omega arith) less refl,
    ))

zero_dividend :
    (v : U256Muldiv) (flag : Bool)
    → 0 < value v
    → Outcomes zero_u256 v flag (ok (zero_u256, zero_u256))
zero_dividend v true positive = smaller zero_u256 v true zero-AreWords positive
zero_dividend v false positive = smaller zero_u256 v false zero-AreWords positive

large_panics :
    (u v : U256Muldiv) (flag : Bool) (result : Result (U256Muldiv × U256Muldiv))
    → 2 ^ 192 ≤ value u
    → 2 ^ 128 ≤ value v
    → Divides u v flag result ⊎ (result ≡ panic × IsOverestimated u v)
    → Outcomes u v flag result
large_panics u v flag result hu hv (inl divides) = inr (inl (omega arith, divides))
large_panics u v flag result hu hv (inr (panics, over)) = inr (inr (panics, hu, hv, over))

div_at-Outcomes :
    (u v : U256Muldiv) (m n : ℕ) (flag : Bool)
    → Sized u m
    → Sized v n
    → AreWords u
    → AreWords v
    → Outcomes u v flag (div_at m n u v flag)
div_at-Outcomes u v m n flag counted size_0 hu hv = inl (omega arith, refl)
div_at-Outcomes u v m n flag size_0 (size_1 b0 pb) hu hv =
    zero_dividend (items b0 0 0 0) flag (omega arith)
div_at-Outcomes u v m n flag size_0 (size_2 b0 b1 pb) hu hv =
    zero_dividend (items b0 b1 0 0) flag (omega arith)
div_at-Outcomes u v m n flag size_0 (size_3 b0 b1 b2 pb) hu hv =
    zero_dividend (items b0 b1 b2 0) flag (omega arith)
div_at-Outcomes u v m n flag size_0 (size_4 b0 b1 b2 b3 pb) hu hv =
    zero_dividend (items b0 b1 b2 b3) flag (omega arith)
div_at-Outcomes u v m n flag (size_1 a0 pa) (size_1 b0 pb) hu hv =
    inr (inl (omega arith, two_by_two a0 0 b0 0 flag hu.0 hu.1 hv.0 hv.1 (omega arith)))
div_at-Outcomes u v m n flag (size_1 a0 pa) (size_2 b0 b1 pb) hu hv =
    smaller (items a0 0 0 0) (items b0 b1 0 0) flag hu (omega arith)
div_at-Outcomes u v m n flag (size_1 a0 pa) (size_3 b0 b1 b2 pb) hu hv =
    smaller (items a0 0 0 0) (items b0 b1 b2 0) flag hu (omega arith)
div_at-Outcomes u v m n flag (size_1 a0 pa) (size_4 b0 b1 b2 b3 pb) hu hv =
    smaller (items a0 0 0 0) (items b0 b1 b2 b3) flag hu (omega arith)
div_at-Outcomes u v m n flag (size_2 a0 a1 pa) (size_1 b0 pb) hu hv =
    inr (inl (omega arith, two_by_two a0 a1 b0 0 flag hu.0 hu.1 hv.0 hv.1 (omega arith)))
div_at-Outcomes u v m n flag (size_2 a0 a1 pa) (size_2 b0 b1 pb) hu hv =
    inr (inl (omega arith, two_by_two a0 a1 b0 b1 flag hu.0 hu.1 hv.0 hv.1 (omega arith)))
div_at-Outcomes u v m n flag (size_2 a0 a1 pa) (size_3 b0 b1 b2 pb) hu hv =
    smaller (items a0 a1 0 0) (items b0 b1 b2 0) flag hu (omega arith)
div_at-Outcomes u v m n flag (size_2 a0 a1 pa) (size_4 b0 b1 b2 b3 pb) hu hv =
    smaller (items a0 a1 0 0) (items b0 b1 b2 b3) flag hu (omega arith)
div_at-Outcomes u v m n flag (size_3 a0 a1 a2 pa) (size_1 b0 pb) hu hv =
    inr (inl (omega arith, word_3 a0 a1 a2 b0 flag hu pb hv.0))
div_at-Outcomes u v m n flag (size_3 a0 a1 a2 pa) (size_2 b0 b1 pb) hu hv =
    inr (inl (omega arith, normalised_3_2 a0 a1 a2 b0 b1 flag hu hv pb))
div_at-Outcomes u v m n flag (size_3 a0 a1 a2 pa) (size_3 b0 b1 b2 pb) hu hv =
    inr (inl (omega arith, normalised_3_3 a0 a1 a2 b0 b1 b2 flag hu hv pb))
div_at-Outcomes u v m n flag (size_3 a0 a1 a2 pa) (size_4 b0 b1 b2 b3 pb) hu hv =
    smaller (items a0 a1 a2 0) (items b0 b1 b2 b3) flag hu (omega arith)
div_at-Outcomes u v m n flag (size_4 a0 a1 a2 a3 pa) (size_1 b0 pb) hu hv =
    inr (inl (omega arith, word_4 a0 a1 a2 a3 b0 flag hu pb hv.0))
div_at-Outcomes u v m n flag (size_4 a0 a1 a2 a3 pa) (size_2 b0 b1 pb) hu hv =
    inr (inl (omega arith, normalised_4_2 a0 a1 a2 a3 b0 b1 flag hu hv pb))
div_at-Outcomes u v m n flag (size_4 a0 a1 a2 a3 pa) (size_3 b0 b1 b2 pb) hu hv =
    large_panics (items a0 a1 a2 a3) (items b0 b1 b2 0) flag _ (omega arith) (omega arith)
      (normalised_4_3 a0 a1 a2 a3 b0 b1 b2 flag hu hv pb)
div_at-Outcomes u v m n flag (size_4 a0 a1 a2 a3 pa) (size_4 b0 b1 b2 b3 pb) hu hv =
    large_panics (items a0 a1 a2 a3) (items b0 b1 b2 b3) flag _ (omega arith) (omega arith)
      (normalised_4_4 a0 a1 a2 a3 b0 b1 b2 b3 flag hu hv pb)

pub div-Outcomes :
    (u v : U256Muldiv) (return_remainder : Bool)
    → AreWords u
    → AreWords v
    → Outcomes u v return_remainder (div u v return_remainder)
unfolding div
div-Outcomes u v flag hu hv =
    div_at-Outcomes u v (num_words u) (num_words v) flag
      (num_words-Sized u.item_0 u.item_1 u.item_2 u.item_3)
      (num_words-Sized v.item_0 v.item_1 v.item_2 v.item_3) hu hv
