-- ===== src/Utils.antt =====
-- src/lib/utils.cpp and utils.h: hexadecimal digits, and UTF-8 one byte or one glyph at a time.
-- `unhex` reads two characters behind a pointer; `utf8_to_32` returns the glyph and the new state;
-- `utf32_to_8` returns the bytes that it stores, whose number is its result.
pub mod Hex
pub mod Decoder
pub mod RoundTrip
pub mod Glyphs
use fcgiserver.Prelude.{
  ℕ, ◌+◌, ◌-◌, ◌*◌, ◌/◌, ◌%◌, ◌^◌, bit_and, bit_or, Bool, true, false, Option, none, some, List, [],
  ◌∷◌, Bytes, ltb, within, ◌==◌, if◌then◌else◌,
}

-- The value of one hexadecimal digit: one of the two ladders of `unhex`.
unfoldable pub hex_value : ℕ → Option ℕ
hex_value c =
    if within b'0' b'9' c
    then some (c - b'0')
    else if within b'a' b'f' c
    then some (c - b'a' + 10)
    else if within b'A' b'F' c
    then some (c - b'A' + 10)
    else none

-- The low digit, added to the high one after `v <<= 4` on a uint8_t.
abbrev unhex_low : ℕ → Option ℕ → Option ℕ
unhex_low v none = none
unhex_low v (some low) = some ((v + low) % 2 ^ 8)

-- `none` is the pair {false, 0}, and `some v` the pair {true, v}.
unfoldable pub unhex : ℕ → ℕ → Option ℕ
unfolding hex_value
unhex c d = elim (hex_value c) [
  | none ↦ none
  | some high ↦ unhex_low (high * 2 ^ 4 % 2 ^ 8) (hex_value d)
]

-- `struct convert_state`
pub record ConvertState : Type 0 where
  pub glyph : ℕ
  pub remaining : ℕ
  pub valid : Bool

-- The state of a default construction.
abbrev pub convert_state : ConvertState
convert_state = record { glyph = 0; remaining = 0; valid = false }

abbrev pub replacement : ℕ
replacement = 65533

-- The branch of `utf8_to_32` for `state.remaining > 0`.
unfoldable pub continue_glyph : ℕ → ConvertState → ConvertState
continue_glyph next state =
    let remaining' = state.remaining - 1 in
    if state.valid
    then if bit_and next 0xc0 == 0x80
      then record {
        glyph = bit_or (state.glyph * 2 ^ 6 % 2 ^ 32) (bit_and next 0x3f);
        remaining = remaining';
        valid = true;
      }
      else record state { remaining = remaining'; valid = false }
    else record state { remaining = remaining' }

-- The branch for a lead byte.
unfoldable pub start_glyph : ℕ → ConvertState → ConvertState
start_glyph next state =
    if bit_and next 0x80 == 0x00
    then record state { glyph = next; valid = true }
    else if bit_and next 0xe0 == 0xc0
    then record { glyph = bit_and next 0x1f; remaining = 1; valid = true }
    else if bit_and next 0xf0 == 0xe0
    then record { glyph = bit_and next 0x0f; remaining = 2; valid = true }
    else if bit_and next 0xf8 == 0xf0
    then record { glyph = bit_and next 0x07; remaining = 3; valid = true }
    else record state { valid = false }

-- What `utf8_to_32` returns in its last state: 0 while bytes of the glyph are missing.
unfoldable pub result_glyph : ConvertState → ℕ
result_glyph state =
    if ltb 0 state.remaining then 0 else if state.valid then state.glyph else replacement

unfoldable pub utf8_step : ℕ → ConvertState → ConvertState
unfolding continue_glyph start_glyph
utf8_step next state =
    if ltb 0 state.remaining then continue_glyph next state else start_glyph next state

unfoldable pub utf8_to_32 : ℕ → ConvertState → ℕ × ConvertState
unfolding utf8_step result_glyph
utf8_to_32 next state = let state' = utf8_step next state in (result_glyph state', state')

unfoldable pub utf32_to_8 : ℕ → Bytes
utf32_to_8 glyph =
    if ltb glyph 0x80
    then glyph ∷ []
    else if ltb glyph 0x800
    then (0xc0 + glyph / 2 ^ 6) ∷ (0x80 + bit_and glyph 0x3f) ∷ []
    else if ltb glyph 0x10000
    then (0xe0 + glyph / 2 ^ 12)
      ∷ (0x80 + bit_and (glyph / 2 ^ 6) 0x3f)
      ∷ (0x80 + bit_and glyph 0x3f)
      ∷ []
    else if ltb glyph 0x110000
    then (0xf0 + glyph / 2 ^ 18)
      ∷ (0x80 + bit_and (glyph / 2 ^ 12) 0x3f)
      ∷ (0x80 + bit_and (glyph / 2 ^ 6) 0x3f)
      ∷ (0x80 + bit_and glyph 0x3f)
      ∷ []
    else []
