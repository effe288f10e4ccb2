-- ===== src/Digits/RoundTrip.antt =====
-- Reading a printed number.
use fcgiserver.Prelude.{
  ℕ, zero, suc, ◌/◌, ◌%◌, ◌≤◌, ◌<◌, ◌≡◌, refl, [], ◌∷◌, Bytes, arith, some, true, ◌∙◌,
}
use fcgiserver.Digits.{digit, print_onto, print, value_onto, from_chars, is_digit}

-- Reading on from the value of a number is reading that number's digits from 0.
value_onto-print_onto :
    (fuel n : ℕ) (out : Bytes)
    → n ≤ fuel
    → value_onto 0 (print_onto 10 fuel n out) ≡ value_onto n out
unfolding print_onto value_onto
value_onto-print_onto zero n out h = ground arith
value_onto-print_onto (suc fuel) n out h =
    ground (arith, value_onto-print_onto fuel (n / 10) (digit (n % 10) ∷ out))

abbrev StartsWithDigit : Bytes → Type 0
StartsWithDigit [] = ⊥
StartsWithDigit (c ∷ s) = is_digit c ≡ true

print_onto-StartsWithDigit :
    (fuel n : ℕ) (out : Bytes) → n ≤ fuel → StartsWithDigit (print_onto 10 fuel n out)
unfolding print_onto
print_onto-StartsWithDigit zero n out h = ground arith
print_onto-StartsWithDigit (suc fuel) n out h =
    ground (arith, print_onto-StartsWithDigit fuel (n / 10) (digit (n % 10) ∷ out))

from_chars-value_onto :
    (values n : ℕ) (s : Bytes)
    → StartsWithDigit s
    → value_onto 0 s ≡ n
    → n < values
    → from_chars values s ≡ some n
unfolding from_chars
from_chars-value_onto values n [] d e h = absurd d
from_chars-value_onto values n (c ∷ s) d e h = ground arith

-- A number in range is read back from its decimal digits.
pub from_chars-print : (values n : ℕ) → n < values → from_chars values (print 10 n) ≡ some n
unfolding print
from_chars-print values n h =
    from_chars-value_onto values n _ (print_onto-StartsWithDigit n n [] (omega arith))
      (value_onto-print_onto n n [] (omega arith) ∙ unfold value_onto in refl) h
