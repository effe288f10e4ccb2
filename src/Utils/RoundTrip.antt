-- ===== src/Utils/RoundTrip.antt =====
-- Decoding what was encoded (src/lib/utils.cpp).
use fcgiserver.Prelude.{
  suc, ◌==◌, if◌then◌else◌, ℕ, ◌+◌, ◌*◌, ◌/◌, ◌%◌, ◌≤◌, ◌<◌, ◌≡◌, true, [], ◌∷◌, arith,
}
use fcgiserver.Prelude.Bits.{byte_masks, bit_and-low_6}
use fcgiserver.Utils.Decoder.{push_six_bits}
use fcgiserver.Utils.{ConvertState, utf8_to_32, utf32_to_8}

-- A state in which `valid` bytes of a glyph stand in `glyph`, and `remaining` are missing.
abbrev pub reading : ℕ → ℕ → ConvertState
reading glyph remaining = record { glyph = glyph; remaining = remaining; valid = true }

pub lead_1 :
    (c : ℕ) (s : ConvertState) → s.remaining ≡ 0 → c < 128 → utf8_to_32 c s ≡ (c, reading c 0)
unfolding utf8_to_32
lead_1 c s z h = ground (arith, byte_masks c)

pub lead_2 :
    (c : ℕ) (s : ConvertState)
    → s.remaining ≡ 0
    → c < 32
    → utf8_to_32 (0xc0 + c) s ≡ (0, reading c 1)
unfolding utf8_to_32
lead_2 c s z h = ground (arith, byte_masks (0xc0 + c))

pub lead_3 :
    (c : ℕ) (s : ConvertState)
    → s.remaining ≡ 0
    → c < 16
    → utf8_to_32 (0xe0 + c) s ≡ (0, reading c 2)
unfolding utf8_to_32
lead_3 c s z h = ground (arith, byte_masks (0xe0 + c))

pub lead_4 :
    (c : ℕ) (s : ConvertState)
    → s.remaining ≡ 0
    → c < 8
    → utf8_to_32 (0xf0 + c) s ≡ (0, reading c 3)
unfolding utf8_to_32
lead_4 c s z h = ground (arith, byte_masks (0xf0 + c))

pub next_byte :
    (glyph c r : ℕ)
    → glyph < 0x4000000
    → c < 64
    → utf8_to_32 (0x80 + c) (reading glyph (suc r))
      ≡ (if r == 0 then glyph * 64 + c else 0, reading (glyph * 64 + c) r)
unfolding utf8_to_32
next_byte glyph c r g h = ground (arith, byte_masks (0x80 + c), push_six_bits glyph (0x80 + c))

-- The bytes of a glyph, as a lead byte and continuation bytes with their payloads.
module _ (g : ℕ) where
  pub utf32_to_8_one : g < 0x80 → utf32_to_8 g ≡ g ∷ []
  unfolding utf32_to_8
  utf32_to_8_one h = ground arith

  pub utf32_to_8_two : 0x80 ≤ g → g < 0x800 → utf32_to_8 g ≡ (0xc0 + g / 64) ∷ (0x80 + g % 64) ∷ []
  unfolding utf32_to_8
  utf32_to_8_two l h = ground (arith, bit_and-low_6 g)

  pub utf32_to_8_three :
      0x800 ≤ g
      → g < 0x10000
      → utf32_to_8 g ≡ (0xe0 + g / 4096) ∷ (0x80 + g / 64 % 64) ∷ (0x80 + g % 64) ∷ []
  unfolding utf32_to_8
  utf32_to_8_three l h = ground (arith, bit_and-low_6 g, bit_and-low_6 (g / 64))

  pub utf32_to_8_four :
      0x10000 ≤ g
      → g < 0x110000
      → utf32_to_8 g
        ≡ (0xf0 + g / 262144) ∷ (0x80 + g / 4096 % 64) ∷ (0x80 + g / 64 % 64) ∷ (0x80 + g % 64) ∷ []
  unfolding utf32_to_8
  utf32_to_8_four l h =
      ground (arith, bit_and-low_6 g, bit_and-low_6 (g / 64), bit_and-low_6 (g / 4096))
