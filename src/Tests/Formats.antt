-- ===== src/Tests/Formats.antt =====
-- Formatted texts and numbers.
use fcgiserver.Prelude.{
  ℕ, ◌^◌, ◌≡◌, ◌≢◌, ◌↔◌, refl, List, [], ◌∷◌, some, Bytes, codes, All, length, concat, arith, ◌>>=◌,
}
use fcgiserver.Utils.{convert_state}
use fcgiserver.Utils.Glyphs.{glyphs}
use fcgiserver.Request.Codec.{utf8_encode}
use fcgiserver.Digits.{print, from_chars}
use fcgiserver.Formatter.{verbatim, html, html_content, utf8, format_text, format_glyphs}
use fcgiserver.Formatter.Text.{Formats, found_bytes, format_text-Formats, format_text-utf8_encode}
use fcgiserver.Formatter.Html.{IsHarmless, format_text-IsHarmless}
use fcgiserver.Formatter.Numbers.{w8, bits, format_unsigned, format_unsigned-from_chars}
use fcgiserver.Formatter.Printf.{vprintf, vprintf-format_text_iff}

abbrev tag : Bytes
tag = codes "<b>"

abbrev three_glyphs : List ℕ
three_glyphs = 0x61 ∷ 0x20ac ∷ 0x3c ∷ []

format_text-Formats_example :
    Formats (found_bytes html (glyphs convert_state tag)) (format_text html tag)
format_text-Formats_example = format_text-Formats html tag (ground arith) (ground arith)

format_text-utf8_encode_example :
    format_text html (utf8_encode three_glyphs) ≡ format_glyphs html three_glyphs
format_text-utf8_encode_example =
    format_text-utf8_encode html three_glyphs (ground arith) (ground arith)

tag_formatted : format_text html_content tag ≡ some (codes "&lt;b&rt;" ∷ [])
unfolding format_text fcgiserver.Utils.utf8_to_32
tag_formatted = refl

format_text-IsHarmless_example : All IsHarmless (concat (codes "&lt;b&rt;" ∷ []))
format_text-IsHarmless_example = format_text-IsHarmless tag (ground arith) tag_formatted

tag_recoded : format_text utf8 tag ≡ some (tag ∷ [])
unfolding format_text fcgiserver.Utils.utf8_to_32 fcgiserver.Utils.utf32_to_8
tag_recoded = refl

format_unsigned-from_chars_example :
    (format_unsigned w8 255 ≡ some (print 10 255))
    × ((format_unsigned w8 255 >>= from_chars (2 ^ bits w8)) ≡ some 255)
format_unsigned-from_chars_example = format_unsigned-from_chars w8 255 (omega arith)

vprintf-format_text_iff_example :
    (vprintf verbatim tag (some tag) ≡ format_text verbatim tag) ↔ (length tag ≢ 128)
vprintf-format_text_iff_example = vprintf-format_text_iff tag tag (ground arith) (ground arith)
