-- ===== src/Utils/Glyphs.antt =====
-- What the decoder finds in a text: each glyph with the byte that completed it.
use native.Mathlib.Decide.{dec_lt}
use mathlib.Core.List.{map}
use fcgiserver.Prelude.{
  ℕ, ◌+◌, ◌*◌, ◌/◌, ◌%◌, ◌≤◌, ◌<◌, ◌≡◌, ◌≢◌, List, [], ◌∷◌, ◌++◌, Bytes, arith, All, ltb, ◌==◌,
  if◌then◌else◌, IsByte,
}
use fcgiserver.Utils.{ConvertState, utf8_to_32, utf32_to_8}
use fcgiserver.Utils.Decoder.{IsDecoding, utf8_to_32-IsDecoding}
use fcgiserver.Utils.RoundTrip.{
  reading, utf32_to_8_one, utf32_to_8_two, utf32_to_8_three, utf32_to_8_four, lead_1, lead_2,
  lead_3, lead_4, next_byte,
}

-- A byte that `utf8_to_32` was given, and the glyph that it returned.
pub record Found : Type 0 where
  pub byte : ℕ
  pub glyph : ℕ

abbrev pub found : ℕ → ℕ → Found
found byte glyph = record { byte = byte; glyph = glyph }

abbrev pub push_found : ℕ → ℕ → List Found → List Found
push_found byte glyph later = if glyph == 0 then later else found byte glyph ∷ later

-- The glyphs other than 0 of a text, in order.
unfoldable pub glyphs : ConvertState → Bytes → List Found
glyphs s [] = []
glyphs s (c ∷ rest) = let (glyph, s') = utf8_to_32 c s in push_found c glyph (glyphs s' rest)

-- Each glyph that is found is below 2^21.
pub glyphs-lt :
    (bs : Bytes) (s : ConvertState)
    → IsDecoding s
    → All IsByte bs
    → All (λ (x : Found). x.glyph < 0x200000) (glyphs s bs)
unfolding glyphs
glyphs-lt [] s v _ = tt
glyphs-lt (c ∷ bs) s v (b, h) =
    let (w, small) = utf8_to_32-IsDecoding c s b v in ground (arith, glyphs-lt bs _ w h)

-- The last byte of an encoded glyph.
unfoldable pub last_byte : ℕ → ℕ
last_byte g = if ltb g 0x80 then g else 0x80 + g % 64

last_byte_one : (g : ℕ) → g < 0x80 → last_byte g ≡ g
unfolding last_byte
last_byte_one g h = ground arith

last_byte_more : (g : ℕ) → 0x80 ≤ g → last_byte g ≡ 0x80 + g % 64
unfolding last_byte
last_byte_more g h = ground arith

-- The bytes of one glyph, met between two glyphs, give that glyph.
module _ (g : ℕ) (s : ConvertState) (rest : Bytes) (z : s.remaining ≡ 0) where
  decode_one :
      g < 0x80
      → glyphs s (utf32_to_8 g ++ rest) ≡ push_found (last_byte g) g (glyphs (reading g 0) rest)
  unfolding glyphs
  decode_one h = rw (utf32_to_8_one g h, lead_1 g s z h, last_byte_one g h)

  decode_two :
      0x80 ≤ g
      → g < 0x800
      → glyphs s (utf32_to_8 g ++ rest) ≡ push_found (last_byte g) g (glyphs (reading g 0) rest)
  unfolding glyphs
  decode_two l h =
      let whole : g / 64 * 64 + g % 64 ≡ g = omega arith in
      rw (
        utf32_to_8_two g l h,
        lead_2 (g / 64) s z (omega arith),
        next_byte (g / 64) (g % 64) 0 (omega arith) (omega arith),
        whole,
        last_byte_more g (omega arith),
      )

  decode_three :
      0x800 ≤ g
      → g < 0x10000
      → glyphs s (utf32_to_8 g ++ rest) ≡ push_found (last_byte g) g (glyphs (reading g 0) rest)
  unfolding glyphs
  decode_three l h =
      let top = g / 4096 in
      let middle = g / 64 % 64 in
      let low = g % 64 in
      let whole : (top * 64 + middle) * 64 + low ≡ g = omega arith in
      rw (
        utf32_to_8_three g l h,
        lead_3 top s z (omega arith),
        next_byte top middle 1 (omega arith) (omega arith),
        next_byte (top * 64 + middle) low 0 (omega arith) (omega arith),
        whole,
        last_byte_more g (omega arith),
      )

  decode_four :
      0x10000 ≤ g
      → g < 0x110000
      → glyphs s (utf32_to_8 g ++ rest) ≡ push_found (last_byte g) g (glyphs (reading g 0) rest)
  unfolding glyphs
  decode_four l h =
      let top = g / 262144 in
      let high = g / 4096 % 64 in
      let middle = g / 64 % 64 in
      let low = g % 64 in
      let whole : ((top * 64 + high) * 64 + middle) * 64 + low ≡ g = omega arith in
      rw (
        utf32_to_8_four g l h,
        lead_4 top s z (omega arith),
        next_byte top high 2 (omega arith) (omega arith),
        next_byte (top * 64 + high) middle 1 (omega arith) (omega arith),
        next_byte ((top * 64 + high) * 64 + middle) low 0 (omega arith) (omega arith),
        whole,
        last_byte_more g (omega arith),
      )

  pub glyphs-utf32_to_8 :
      g < 0x110000
      → glyphs s (utf32_to_8 g ++ rest) ≡ push_found (last_byte g) g (glyphs (reading g 0) rest)
  glyphs-utf32_to_8 h = elim (dec_lt g 0x80) [
    | yes one ↦ decode_one one
    | no l ↦ elim (dec_lt g 0x800) [
      | yes two ↦ decode_two (omega arith) two
      | no l ↦ elim (dec_lt g 0x10000) [
        | yes three ↦ decode_three (omega arith) three
        | no l ↦ decode_four (omega arith) h
      ]
    ]
  ]

-- A glyph that Unicode has, other than 0.
abbrev pub IsGlyph : ℕ → Type 0
IsGlyph g = (g ≢ 0) × (g < 0x110000)

-- The pairs that the decoder finds in the encoding of glyphs.
abbrev pub encoded : List ℕ → List Found
encoded = map (λ g. found (last_byte g) g)
