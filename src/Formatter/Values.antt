-- ===== src/Formatter/Values.antt =====
-- `operator<<` for the floating types and for symbols, and the template `append`
-- (src/lib/generic_formatter.cpp and generic_formatter.h). A function returns the strings that it
-- hands to `real_append`.
use fcgiserver.Prelude.{ℕ, List, [], ◌∷◌, ◌++◌, Option, some, Bytes, ◌>>=◌}
use fcgiserver.Symbols.{Symbol, SymbolServer, resolve}
use fcgiserver.Formatter.{GenericFormat, format_text}
use fcgiserver.Formatter.Numbers.{to_chars}

-- `char tmp[32]`
abbrev pub float_size : ℕ
float_size = 32

-- `operator<< (double)`, and the one of a float, for the text that `std::to_chars` makes of the number;
-- `none` is a text that does not fit.
unfoldable pub format_float : Bytes → Option (List Bytes)
format_float text = to_chars float_size text >>= λ shown. some (shown ∷ [])

-- `operator<< (Symbol)`
unfoldable pub format_symbol : GenericFormat → Symbol → SymbolServer → Option (List Bytes)
format_symbol format id s = format_text format (resolve id s)

-- `append(arg, args...)`: what each argument hands over, in order.
unfoldable pub append_each : List (Option (List Bytes)) → Option (List Bytes)
append_each [] = some []
append_each (arg ∷ args) = do strings ← arg; later ← append_each args; some (strings ++ later)
