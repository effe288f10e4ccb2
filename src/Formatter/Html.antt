-- ===== src/Formatter/Html.antt =====
-- What the formats promise about their output (src/lib/generic_formatter.h).
use mathlib.Core.List.{map}
use fcgiserver.Prelude.{
  ℕ, ◌+◌, ◌*◌, ◌<◌, ◌≡◌, ◌≢◌, ap, refl, List, [], ◌∷◌, ◌++◌, some, inl, inr, Bool-cases, Bytes,
  codes, concat, All, All-append, IsByte, arith, ltb,
}
use fcgiserver.Digits.{digit, print}
use fcgiserver.Digits.Bounds.{All-print}
use fcgiserver.Utils.{convert_state, utf32_to_8}
use fcgiserver.Utils.RoundTrip.{lead_2, next_byte}
use fcgiserver.Utils.Glyphs.{Found, glyphs}
use fcgiserver.Request.Codec.{utf8_decode, utf8_encode}
use fcgiserver.Request.Codec.Utf8.{utf8_decode-glyphs}
use fcgiserver.Formatter.{html_content, utf8, entity, format_text, put_glyph}
use fcgiserver.Formatter.Buffer.{escape, glyph_bytes}
use fcgiserver.Formatter.Text.{found_bytes, format_text-Formats}

-- Not a bracket of a tag.
abbrev pub IsHarmless : ℕ → Type 0
IsHarmless b = (b ≢ b'<') × (b ≢ b'>')

digit-IsHarmless : (v : ℕ) → v < 16 → IsHarmless (digit v)
digit-IsHarmless v h = ground arith

module _ (P : ℕ → Type 0) (fixed : All P (codes "&#x;"))
    (each : (v : ℕ) → v < 16 → P (digit v)) where
  All-entity : (g : ℕ) → All P (entity g)
  All-entity g =
      let (ampersand, (hash, (x, (semicolon, _)))) = fixed in
      let digits =
        All-append P (print 16 g) (codes ";") (All-print P each 16 (omega arith) (omega arith) g)
          (semicolon, tt) in
      (ampersand, (hash, (x, digits)))

escape-IsHarmless : (c : ℕ) → All IsHarmless (escape html_content c)
escape-IsHarmless c = ground arith

glyph_bytes-IsHarmless : (c g : ℕ) → All IsHarmless (glyph_bytes html_content c g)
unfolding glyph_bytes
glyph_bytes-IsHarmless c g = elim (Bool-cases (ltb g 0x80)) [
  | inl one ↦ rw one (escape-IsHarmless c)
  | inr more ↦ rw more (All-entity IsHarmless (omega arith) digit-IsHarmless g)
]

pub found_bytes-IsHarmless : (xs : List Found) → All IsHarmless (found_bytes html_content xs)
found_bytes-IsHarmless [] = tt
found_bytes-IsHarmless (x ∷ xs) =
    All-append IsHarmless (glyph_bytes html_content x.byte x.glyph) (found_bytes html_content xs)
      (glyph_bytes-IsHarmless x.byte x.glyph) (found_bytes-IsHarmless xs)

-- In the format for HTML content, whatever bytes go in, no bracket of a tag comes out.
pub format_text-IsHarmless :
    (s : Bytes) {strings : List Bytes}
    → All IsByte s
    → format_text html_content s ≡ some strings
    → All IsHarmless (concat strings)
format_text-IsHarmless s {strings} h e =
    let f = format_text-Formats html_content s (cc) h in
    let same : f.strings ≡ strings = cc (f.returns) in
    rw (← same, f.spells) (found_bytes-IsHarmless (glyphs convert_state s))

found_bytes_utf8 : (xs : List Found) → found_bytes utf8 xs ≡ utf8_encode (map (λ x. x.glyph) xs)
unfolding glyph_bytes utf8_encode
found_bytes_utf8 [] = refl
found_bytes_utf8 (x ∷ xs) = ap (◌++◌ (utf32_to_8 x.glyph)) (found_bytes_utf8 xs)

-- In the format UTF8 a text is decoded and encoded again: what is no glyph is replaced or dropped.
pub format_text_recodes :
    (s : Bytes) {strings : List Bytes}
    → All IsByte s
    → format_text utf8 s ≡ some strings
    → concat strings ≡ utf8_encode (utf8_decode s)
format_text_recodes s {strings} h e =
    let f = format_text-Formats utf8 s (cc) h in
    let same : f.strings ≡ strings = cc (f.returns) in
    rw (← same, f.spells, utf8_decode-glyphs s) (found_bytes_utf8 (glyphs convert_state s))

-- An overlong sequence of two bytes, the encoding of a character below 0x80 but 0, is not taken
-- for an error: its second byte alone is handed over.
pub format_text_overlong :
    (lead low : ℕ)
    → lead < 2
    → low < 64
    → lead * 64 + low ≢ 0
    → format_text html_content ((0xc0 + lead) ∷ (0x80 + low) ∷ []) ≡ some (((0x80 + low) ∷ []) ∷ [])
unfolding format_text put_glyph
format_text_overlong lead low a b n =
    rw (lead_2 lead convert_state refl (omega arith), next_byte lead low 0 (omega arith) b)
      (ground arith)
