-- ===== src/Math/U256/Divide/Print.antt =====
-- `impl Display for U256Muldiv`: the decimal digits of four words.
use elysium_dex.Base.{
  ℕ, zero, suc, ◌+◌, ◌-◌, ◌*◌, ◌/◌, ◌%◌, ◌^◌, ◌<◌, ◌≤◌, ◌≡◌, ◌⊎◌, inl, inr, refl, ap, ◌∙◌, subst,
  sym, arith, true, false, List, [], ◌∷◌, by_branch, if◌then◌else◌,
}
use elysium_dex.Errors.{Result, ok, panic, ◌>>=◌}
use elysium_dex.Math.U256.{U256Muldiv, new, get_word, is_zero}
use elysium_dex.Math.U256.Value.{value, AreWords}
use elysium_dex.Math.U256.Product.{new-value}
use elysium_dex.Math.U256.Shift.Whole.{value-small}
use elysium_dex.Math.U256.Divide.{div}
use elysium_dex.Math.U256.Divide.Exact.{Outcomes, div-Outcomes}
use elysium_dex.Math.U256.Divide.Steps.{then_returns}
use native.Mathlib.Nat.{pow-suc}

-- The loop of `fmt`: the bytes in `buf` from the index on. `room` is the room below, and a digit
-- too many is an index out of bounds.
unfoldable pub write_digits : (room : ℕ) → U256Muldiv → List ℕ → Result (List ℕ)
unfolding div get_word is_zero new
write_digits zero current written = panic
write_digits (suc room) current written = do
  (quotient, remainder) ← div current (new 0 10) true
  word ← get_word remainder 0
  let written' = ((word % 256 + 48) % 256) ∷ written
  let rest = write_digits room quotient written'
  if is_zero quotient then ok written' else rest

-- `[0_u8; NUM_WORDS * 20]`
unfoldable pub fmt : U256Muldiv → Result (List ℕ)
unfolding write_digits
fmt u = write_digits 80 u []

-- Decimal digits, in ASCII.
abbrev pub AreDigits : List ℕ → Type 0
AreDigits [] = Unit {0}
AreDigits (d ∷ ds) = (48 ≤ d) × (d ≤ 57) × AreDigits ds

-- Some digits of which the first is not 0, or the digit 0 alone.
abbrev pub IsNumeral : List ℕ → Type 0
IsNumeral [] = ⊥
IsNumeral (d ∷ ds) = AreDigits (d ∷ ds) × ((48 < d) ⊎ (ds ≡ []))

-- The number that decimal digits, in ASCII, spell after what is read already.
abbrev pub read_digits : ℕ → List ℕ → ℕ
read_digits n [] = n
read_digits n (d ∷ ds) = read_digits (n * 10 + (d - 48)) ds

abbrev Spells : U256Muldiv → List ℕ → Result (List ℕ) → Type 0
Spells u written result =
    (digits : List ℕ) × (result ≡ ok digits)
    × IsNumeral digits
    × (read_digits 0 digits ≡ read_digits (value u) written)

-- A division by ten that returns, with the digit.
abbrev DividesByTen : U256Muldiv → Result (U256Muldiv × U256Muldiv) → Type 0
DividesByTen u result =
    (q : U256Muldiv) × (r : U256Muldiv) × (result ≡ ok (q, r))
    × AreWords q
    × (value q ≡ value u / 10)
    × (r.item_0 ≡ value u % 10)

ten : value (new 0 10) ≡ 10
ten = let (words, e) = new-value 0 10 (omega arith) (omega arith) in e

only_divides :
    (u : U256Muldiv) (result : Result (U256Muldiv × U256Muldiv))
    → Outcomes u (new 0 10) true result
    → DividesByTen u result
only_divides u result (inl (zero_v, panics)) = absurd (omega (arith, zero_v, ten))
only_divides u result (inr (inl (positive, (q, r, e, wq, eq, (w0, w1, w2, w3), er)))) =
    let exact : value r ≡ value u % 10 = er ∙ ap (λ d. value u % d) ten in
    (q, r, e, wq, eq ∙ ap (λ d. value u / d) ten, omega (arith, exact))
only_divides u result (inr (inr (panics, large_u, large_v, over))) =
    absurd (omega (arith, large_v, ten))

by_ten : (u : U256Muldiv) → AreWords u → DividesByTen u (div u (new 0 10) true)
by_ten u hu =
    only_divides u (div u (new 0 10) true)
      (div-Outcomes u (new 0 10) true hu (new-value 0 10 (omega arith) (omega arith)).0)

zero_when : (q : U256Muldiv) → is_zero q ≡ true → value q ≡ 0
unfolding is_zero
zero_when q e = ground arith

positive_when : (q : U256Muldiv) → is_zero q ≡ false → 0 < value q
unfolding is_zero
positive_when q e = ground arith

last_digit :
    (n d : ℕ) (written : List ℕ)
    → n < 10
    → d ≡ n % 10
    → read_digits 0 (((d % 256 + 48) % 256) ∷ written) ≡ read_digits n written
last_digit n d written h e =
    let whole : 0 * 10 + ((d % 256 + 48) % 256 - 48) ≡ n = omega arith in
    ap (λ m. read_digits m written) whole

next_digit :
    (n q d : ℕ) (written : List ℕ)
    → q ≡ n / 10
    → d ≡ n % 10
    → read_digits q (((d % 256 + 48) % 256) ∷ written) ≡ read_digits n written
next_digit n q d written e f =
    let whole : q * 10 + ((d % 256 + 48) % 256 - 48) ≡ n = omega arith in
    ap (λ m. read_digits m written) whole

is_digit :
    (n d : ℕ) (written : List ℕ)
    → d ≡ n % 10
    → AreDigits written
    → AreDigits (((d % 256 + 48) % 256) ∷ written)
is_digit n d written e rest = (omega arith, omega arith, rest)

-- The last digit that is written, of a number below ten.
leads :
    (n d : ℕ) (written : List ℕ)
    → n < 10
    → d ≡ n % 10
    → ((0 < n) ⊎ (written ≡ []))
    → (48 < (d % 256 + 48) % 256) ⊎ (written ≡ [])
leads n d written h e (inl positive) = inl (omega arith)
leads n d written h e (inr none) = inr none

room_left : (room n : ℕ) → 0 < n → n < 10 ^ room → 0 < room
room_left zero n positive small = absurd (omega arith)
room_left (suc room) n positive small = omega arith

write_digits-Spells :
    (room : ℕ) (u : U256Muldiv) (written : List ℕ)
    → AreWords u
    → 0 < room
    → value u < 10 ^ room
    → AreDigits written
    → ((0 < value u) ⊎ (written ≡ []))
    → Spells u written (write_digits room u written)
unfolding write_digits get_word
write_digits-Spells zero u written hu positive h digits first = absurd (omega arith)
write_digits-Spells (suc room) u written hu positive h digits first =
    let (q, r, divided, wq, eq, er) = by_ten u hu in
    let next = ((r.item_0 % 256 + 48) % 256) ∷ written in
    let power = pow-suc 10 room in
    let one_more : AreDigits next = is_digit (value u) r.item_0 written er digits in
    subst (Spells u written) (sym (then_returns _ _ divided refl)) (
      by_branch (Spells u written) (is_zero q)
        (λ last. (
          next,
          refl,
          (
            one_more,
            leads (value u) r.item_0 written (omega (arith, zero_when q last, eq)) er first,
          ),
          last_digit (value u) r.item_0 written (omega (arith, zero_when q last, eq)) er,
        ))
        λ more.
          let small : value q < 10 ^ room = omega (arith, eq, power) in
          let left = room_left room (value q) (positive_when q more) small in
          let (numeral, returns, proper, same) =
            write_digits-Spells room q next wq left small one_more (inl (positive_when q more)) in
          (numeral, returns, proper, same ∙ next_digit (value u) (value q) r.item_0 written eq er))

-- Printing a number of four words returns, within the buffer of 80 bytes, and what it writes is a
-- numeral: decimal digits in ASCII, with no zero before others, that spell the number.
pub fmt-Spells :
    (u : U256Muldiv)
    → AreWords u
    → (digits : List ℕ) × (fmt u ≡ ok digits) × IsNumeral digits × (read_digits 0 digits ≡ value u)
unfolding fmt
fmt-Spells u hu =
    write_digits-Spells 80 u [] hu (omega arith) (omega (arith, value-small u hu)) tt (inr refl)
