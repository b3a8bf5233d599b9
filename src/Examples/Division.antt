-- ===== src/Examples/Division.antt =====
-- Shifts and divisions of four words.
use elysium_dex.Errors.{ok}
use elysium_dex.Base.{ℕ, List, ◌*◌, ◌/◌, ◌%◌, ◌^◌, ◌≡◌, arith}
use elysium_dex.Math.U256.{items, shift_left, shift_right}
use elysium_dex.Math.U256.Value.{value, AreWords, u256_mod}
use elysium_dex.Math.U256.Shift.Whole.{shift-value}
use elysium_dex.Math.U256.Divide.Print.{IsNumeral, read_digits, fmt, fmt-Spells}

shift-value_example :
    (AreWords (shift_left (items 7 0 5 0) 131)
      × (value (shift_left (items 7 0 5 0) 131) ≡ value (items 7 0 5 0) * 2 ^ 131 % u256_mod))
    × AreWords (shift_right (items 7 0 5 0) 131)
    × (value (shift_right (items 7 0 5 0) 131) ≡ value (items 7 0 5 0) / 2 ^ 131)
shift-value_example =
    shift-value (items 7 0 5 0) 131 (omega arith, omega arith, omega arith, omega arith)

fmt-Spells_example :
    (digits : List ℕ) × (fmt (items 9 3 0 (2 ^ 63)) ≡ ok digits)
    × IsNumeral digits
    × (read_digits 0 digits ≡ value (items 9 3 0 (2 ^ 63)))
fmt-Spells_example =
    fmt-Spells (items 9 3 0 (2 ^ 63)) (omega arith, omega arith, omega arith, omega arith)
