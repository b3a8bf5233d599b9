-- ===== src/Math/Bit/Quotient.antt =====
-- `div_round_up_if_u256` against the rounded quotient of the numbers.
use elysium_dex.Base.{
  ℕ, ◌+◌, ◌*◌, ◌/◌, ◌%◌, ◌^◌, ◌≤◌, ◌<◌, ◌≡◌, inl, inr, ap, subst, sym, ◌∙◌, arith, Bool, true,
  false, not, ◌&&◌, ◌==◌, if◌then◌else◌, by_branch,
}
use elysium_dex.Base.Bits.{bit_or-eq-add}
use elysium_dex.Base.Words.{u128_mod}
use elysium_dex.Errors.{Result, ok, panic}
use elysium_dex.Math.U256.{U256Muldiv, new, add, is_zero, num_words, try_into_u128}
use elysium_dex.Math.U256.Value.{value, AreWords, add-value, u256_mod}
use elysium_dex.Math.U256.Product.{new-value}
use elysium_dex.Math.U256.Shift.Whole.{value-small}
use elysium_dex.Math.U256.Divide.{div}
use elysium_dex.Math.U256.Divide.Exact.{Outcomes, div-Outcomes}
use elysium_dex.Math.Bit.Rounding.{Rounds}
use native.Mathlib.Nat.{div-add-mod, mod-lt, mul_comm, mul-le-mul_right, add-mul, one-mul}

-- What a division that returns has found.
abbrev Answers : (u v : U256Muldiv) → Bool → U256Muldiv × U256Muldiv → Type 0
Answers u v flag (q, r) =
    (0 < value v)
    × AreWords q
    × (value q ≡ value u / value v)
    × (value r ≡ (if flag then value u % value v else 0))

answer_returns :
    (u v : U256Muldiv) (flag : Bool) (result : Result (U256Muldiv × U256Muldiv))
    (found : U256Muldiv × U256Muldiv)
    → Outcomes u v flag result
    → result ≡ ok found
    → Answers u v flag found
answer_returns u v flag result found (inl (none, panics)) e = absurd (never (sym panics ∙ e))
  where
    never : panic ≡ ok found → ⊥
    never e = cc
answer_returns u v flag result found (inr (inl (positive, (q, r, same, wq, eq, wr, er)))) e =
    let alike : ok (q, r) ≡ ok found = sym same ∙ e in
    subst (Answers u v flag) (injective (q, r) found alike) (positive, wq, eq, er)
  where
    injective : (a b : U256Muldiv × U256Muldiv) → ok a ≡ ok b → a ≡ b
    injective a b e = cc
answer_returns u v flag result found (inr (inr (panics, large_u, large_v, over))) e =
    absurd (never (sym panics ∙ e))
  where
    never : panic ≡ ok found → ⊥
    never e = cc

try_into_u128_lem :
    (u : U256Muldiv) (n : ℕ) → AreWords u → try_into_u128 u ≡ ok n → (value u ≡ n) × (n < u128_mod)
unfolding try_into_u128 num_words
try_into_u128_lem u n (h0, h1, h2, h3) e =
    let small : (u.item_1 * 2 ^ 64 % u128_mod) % 2 ^ 64 ≡ 0 = omega arith in
    let joined = bit_or-eq-add 64 (u.item_1 * 2 ^ 64 % u128_mod) u.item_0 small h0 in
    ground (arith, joined)

is_zero-value : (r : U256Muldiv) → is_zero r ≡ (value r == 0)
unfolding is_zero
is_zero-value r = ground arith

abbrev pub rounded : Bool → U256Muldiv → U256Muldiv → U256Muldiv
rounded round_up q r = if round_up && not (is_zero r) then add q (new 0 1) else q

-- Rounding a quotient down, and up, by the remainder.
floor_lem : (n d q : ℕ) → 0 < d → q ≡ n / d → Rounds n d false q
floor_lem n d q h e =
    let product = ap (λ y. y * d) e in
    let divided = div-add-mod n d in
    let swap = mul_comm d (n / d) in (omega arith, omega (arith, mod-lt n h))

ceiling_exact : (n d q r : ℕ) → 0 < d → q ≡ n / d → r ≡ n % d → r ≡ 0 → Rounds n d true q
ceiling_exact n d q r h e f zero_r =
    let product = ap (λ y. y * d) e in
    let divided = div-add-mod n d in let swap = mul_comm d (n / d) in (omega arith, omega arith)

ceiling_next :
    (n d q r q' : ℕ)
    → 0 < d
    → n < u256_mod
    → q ≡ n / d
    → r ≡ n % d
    → 0 < r
    → q' ≡ (q + 1) % u256_mod
    → Rounds n d true q'
ceiling_next n d q r q' h small e f positive next =
    let product = ap (λ y. y * d) e in
    let divided = div-add-mod n d in
    let swap = mul_comm d (n / d) in
    let below : n % d < d = mod-lt n h in
    let twice : 2 * q ≤ d * q = mul-le-mul_right q (omega arith) in
    let exact : q' ≡ q + 1 = omega (arith, twice, mul_comm d q) in
    let more : q' * d ≡ q * d + d =
      ap (λ y. y * d) exact ∙ add-mul q 1 d ∙ ap (λ y. q * d + y) (one-mul d) in
    (omega arith, omega arith)

not_zero_word : (n : ℕ) → not (n == 0) ≡ true → 0 < n
not_zero_word n e = grind arith

zero_word : (n : ℕ) → not (n == 0) ≡ false → n ≡ 0
zero_word n e = grind arith

-- The quotient, and one more where there is a remainder and it is rounded up.
rounded-Rounds :
    (u v q r : U256Muldiv) (round_up : Bool)
    → AreWords u
    → Answers u v round_up (q, r)
    → AreWords (rounded round_up q r)
      × Rounds (value u) (value v) round_up (value (rounded round_up q r))
rounded-Rounds u v q r false hu (positive, wq, eq, er) =
    (wq, floor_lem (value u) (value v) (value q) positive eq)
rounded-Rounds u v q r true hu (positive, wq, eq, er) =
    by_branch (λ w. AreWords w × Rounds (value u) (value v) true (value w)) (not (is_zero r))
      (λ rest.
        let (one_words, one) = new-value 0 1 (omega arith) (omega arith) in
        let (words, sum) = add-value q (new 0 1) wq one_words in
        let left = not_zero_word (value r) (ap not (sym (is_zero-value r)) ∙ rest) in
        (
          words,
          ceiling_next (value u) (value v) (value q) (value r) (value (add q (new 0 1))) positive
              (value-small u hu) eq er left (sum ∙ ap (λ y. (value q + y) % u256_mod) one),
        ))
      λ none.
        let left = zero_word (value r) (ap not (sym (is_zero-value r)) ∙ none) in
        (wq, ceiling_exact (value u) (value v) (value q) (value r) positive eq er left)

-- A rounded quotient of four words by four, where it is returned.
pub rounded_quotient-Rounds :
    (u v : U256Muldiv) (round_up : Bool) (found : U256Muldiv × U256Muldiv) (n : ℕ)
    → AreWords u
    → AreWords v
    → div u v round_up ≡ ok found
    → try_into_u128 (rounded round_up found.0 found.1) ≡ ok n
    → (0 < value v) × Rounds (value u) (value v) round_up n × (n < u128_mod)
rounded_quotient-Rounds u v round_up (q, r) n hu hv e f =
    let (positive, wq, eq, er) =
      answer_returns u v round_up (div u v round_up) (q, r) (div-Outcomes u v round_up hu hv) e in
    let (words, rounds) = rounded-Rounds u v q r round_up hu (positive, wq, eq, er) in
    let (same, small) = try_into_u128_lem (rounded round_up q r) n words f in
    (positive, subst (Rounds (value u) (value v) round_up) same rounds, small)
