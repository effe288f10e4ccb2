-- ===== src/Digits.antt =====
-- Numbers as text, as the program gets them from the C++ library: `std::to_chars`,
-- `std::to_string`, the `%x` of `std::snprintf`, and `std::from_chars` at base 10.
pub mod Bounds
pub mod RoundTrip
use fcgiserver.Prelude.{
  ℕ, zero, suc, ◌+◌, ◌-◌, ◌*◌, ◌/◌, ◌%◌, Bool, List, [], ◌∷◌, Option, none, some, Bytes, ltb, ◌==◌,
  within, if◌then◌else◌,
}

-- The digit of a value below 16.
abbrev pub digit : ℕ → ℕ
digit v = if ltb v 10 then b'0' + v else b'a' + (v - 10)

-- The digits of n before those in `out`. The fuel n is enough, since a base is at least 2.
pub print_onto : ℕ → ℕ → ℕ → Bytes → Bytes
print_onto base zero n out = digit n ∷ out
print_onto base (suc fuel) n out =
    let more = print_onto base fuel (n / base) (digit (n % base) ∷ out) in
    if ltb n base then digit n ∷ out else more

unfoldable pub print : ℕ → ℕ → Bytes
unfolding print_onto
print base n = print_onto base n n []

abbrev pub is_digit : ℕ → Bool
is_digit = within b'0' b'9'

-- The value of the longest prefix of digits, behind n.
pub value_onto : ℕ → Bytes → ℕ
value_onto n [] = n
value_onto n (c ∷ s) =
    let more = value_onto (n * 10 + (c - b'0')) s in if is_digit c then more else n

-- `std::from_chars` into an unsigned type with the given number of values: `none` is an error, that
-- there is no digit or that the value is out of range. What follows the digits is not read.
unfoldable pub from_chars : ℕ → Bytes → Option ℕ
unfolding value_onto
from_chars values [] = none
from_chars values (c ∷ s) =
    let value = value_onto 0 (c ∷ s) in
    if is_digit c then if ltb value values then some value else none else none
