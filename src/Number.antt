-- ===== src/Number.antt =====
-- src/native/parse-number.h: decimal text as a list of character codes, 64-bit values.
pub mod Decimal
use wireguard_dns_program_sp.Base.{
  ℕ, zero, suc, ◌+◌, ◌-◌, ◌*◌, ◌/◌, ◌%◌, ◌^◌, Bool, true, false, not, ◌&&◌, ◌||◌, List, [], ◌∷◌,
  Option, none, some, ltb, leb, if◌then◌else◌,
}

-- The loop of `parseDecimal`, from the value so far.
unfoldable pub parse_digits : ℕ → List ℕ → ℕ → Option ℕ
parse_digits value [] maximum = some value
parse_digits value (c ∷ text) maximum =
    let digit = c - 48 in
    let rest = parse_digits ((value * 10 + digit) % 2 ^ 64) text maximum in
    if ltb c 48 || ltb 57 c
    then none
    else if ltb maximum digit || ltb ((maximum - digit) / 10) value
    then none
    else rest

unfoldable pub parse_decimal : List ℕ → ℕ → Option ℕ
parse_decimal [] maximum = none
parse_decimal (c ∷ text) maximum = parse_digits 0 (c ∷ text) maximum

-- `hexDigit`, with none for -1.
unfoldable pub hex_digit : ℕ → Option ℕ
hex_digit c =
    if leb 48 c && leb c 57
    then some (c - 48)
    else if leb 97 c && leb c 102
    then some (c - 97 + 10)
    else if leb 65 c && leb c 70
    then some (c - 65 + 10)
    else none
