-- ===== src/Formatter/Numbers.antt =====
-- `operator<<` for the integer types (src/lib/generic_formatter.cpp).
use fcgiserver.Prelude.{
  ℕ, suc, ◌-◌, ◌<◌, ◌^◌, ◌≡◌, ◌∷◌, Option, none, some, Bytes, length, leb, arith, if◌then◌else◌,
  ◌>>=◌,
}
use fcgiserver.Prelude.Int.{ℤ, pos, negsuc}
use fcgiserver.Digits.{print, from_chars}
use fcgiserver.Digits.Bounds.{
  length-print_8, length-print_16, length-print_32, length-print_63, length-print_64,
}
use fcgiserver.Digits.RoundTrip.{from_chars-print}

pub data Width : Type 0 where
  w8 w16 w32 w64 : Width

abbrev pub bits : Width → ℕ
bits w8 = 8
bits w16 = 16
bits w32 = 32
bits w64 = 64

-- `char tmp[...]`
abbrev pub tmp_size : Width → ℕ
tmp_size w8 = 8
tmp_size w16 = 8
tmp_size w32 = 12
tmp_size w64 = 24

-- `std::to_chars(tmp, tmp + sizeof(tmp), i)`; `none` is the error that the number does not fit, of
-- which the caller takes no notice.
abbrev pub to_chars : ℕ → Bytes → Option Bytes
to_chars size text = if leb (length text) size then some text else none

abbrev pub print_int : ℤ → Bytes
print_int (pos n) = print 10 n
print_int (negsuc n) = b'-' ∷ print 10 (suc n)

unfoldable pub format_unsigned : Width → ℕ → Option Bytes
format_unsigned w i = to_chars (tmp_size w) (print 10 i)

unfoldable pub format_signed : Width → ℤ → Option Bytes
format_signed w i = to_chars (tmp_size w) (print_int i)

-- A value of the signed type of this width.
abbrev pub IsSigned : Width → ℤ → Type 0
IsSigned w (pos n) = n < 2 ^ (bits w - 1)
IsSigned w (negsuc n) = n < 2 ^ (bits w - 1)

-- Every value of an unsigned type fits its buffer, and its text is read back as the value.
pub format_unsigned-from_chars :
    (w : Width) (i : ℕ)
    → i < 2 ^ bits w
    → (format_unsigned w i ≡ some (print 10 i))
      × ((format_unsigned w i >>= from_chars (2 ^ bits w)) ≡ some i)
unfolding format_unsigned
format_unsigned-from_chars w8 i h =
    let read = from_chars-print (2 ^ 8) i h in ground (arith, length-print_8 i h)
format_unsigned-from_chars w16 i h =
    let read = from_chars-print (2 ^ 16) i h in ground (arith, length-print_16 i h)
format_unsigned-from_chars w32 i h =
    let read = from_chars-print (2 ^ 32) i h in ground (arith, length-print_32 i h)
format_unsigned-from_chars w64 i h =
    let read = from_chars-print (2 ^ 64) i h in ground (arith, length-print_64 i h)

-- Every value of a signed type fits its buffer, the sign included.
pub format_signed-print_int :
    (w : Width) (i : ℤ) → IsSigned w i → format_signed w i ≡ some (print_int i)
unfolding format_signed
format_signed-print_int w8 (pos n) h = ground (arith, length-print_8 n)
format_signed-print_int w8 (negsuc n) h = ground (arith, length-print_8 (suc n))
format_signed-print_int w16 (pos n) h = ground (arith, length-print_16 n)
format_signed-print_int w16 (negsuc n) h = ground (arith, length-print_16 (suc n))
format_signed-print_int w32 (pos n) h = ground (arith, length-print_32 n)
format_signed-print_int w32 (negsuc n) h = ground (arith, length-print_32 (suc n))
format_signed-print_int w64 (pos n) h = ground (arith, length-print_63 n)
format_signed-print_int w64 (negsuc n) h = ground (arith, length-print_63 (suc n))
