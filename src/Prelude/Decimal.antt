-- ===== src/Prelude/Decimal.antt =====
-- A number's `to_string`.
use Prim.Native.Nat.{ℕ, zero, suc, ◌/◌, ◌%◌}
use Prim.Native.String.{String, ◌++◌}
use dent.Prelude.Tests.{ltb, nat_eq, if◌then◌else◌}

abbrev digit : ℕ → String
digit d =
    if nat_eq d 0
    then "0"
    else if nat_eq d 1
    then "1"
    else if nat_eq d 2
    then "2"
    else if nat_eq d 3
    then "3"
    else if nat_eq d 4
    then "4"
    else if nat_eq d 5
    then "5"
    else if nat_eq d 6
    then "6"
    else if nat_eq d 7
    then "7"
    else if nat_eq d 8
    then "8"
    else "9"

-- The fuel is at least the number of digits.
unfoldable pub decimal_of : ℕ → ℕ → String
decimal_of zero n = ""
decimal_of (suc fuel) n =
    let rest = decimal_of fuel (n / 10) in if ltb n 10 then digit n else rest ++ digit (n % 10)

unfoldable pub to_decimal : ℕ → String
to_decimal n = decimal_of (suc n) n
