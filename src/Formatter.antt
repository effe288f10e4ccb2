-- ===== src/Formatter.antt =====
-- src/lib/generic_formatter.cpp and generic_formatter.h: text and glyphs on their way to
-- `real_append`, in one of four formats. A function returns the strings that it hands to
-- `real_append`, in order. The scratch buffer `char tmp[128]` is its first `offset` bytes, and
-- `none` is a write behind its end.
pub mod Buffer
pub mod Text
pub mod Html
pub mod Numbers
pub mod Printf
pub mod Values
use fcgiserver.Prelude.{
  ℕ, ◌+◌, ◌/◌, ◌%◌, Bool, true, false, ◌&&◌, List, [], ◌∷◌, ◌++◌, Option, none, some, Bytes, codes,
  length, ltb, leb, ◌==◌, if◌then◌else◌, ◌>>=◌,
}
use fcgiserver.Digits.{print}
use fcgiserver.Utils.{ConvertState, convert_state, utf8_to_32, utf32_to_8}

pub data GenericFormat : Type 0 where
  verbatim html html_content utf8 : GenericFormat

abbrev pub is_html_content : GenericFormat → Bool
is_html_content html_content = true
is_html_content _ = false

abbrev pub buffer_size : ℕ
buffer_size = 128

-- `std::memcpy(tmp + offset, ...)`, or single stores
abbrev pub put : Bytes → Bytes → Option Bytes
put tmp text = if leb (length tmp + length text) buffer_size then some (tmp ++ text) else none

-- `std::snprintf(tmp + offset, sizeof(tmp) - offset, ...)` writes a NUL too. Where that does not
-- fit it cuts the text, and the `offset += len` that follows leaves the buffer.
abbrev pub put_formatted : Bytes → Bytes → Option Bytes
put_formatted tmp text =
    if ltb (length tmp + length text) buffer_size then some (tmp ++ text) else none

-- "&#x%x;"
abbrev pub entity : ℕ → Bytes
entity glyph = codes "&#x" ++ (print 16 glyph ++ codes ";")

-- The ladder for one glyph below 0x80; c is the byte or the glyph that is tested and stored.
unfoldable pub put_ascii : GenericFormat → ℕ → Bytes → Option Bytes
put_ascii format c tmp =
    if c == b'<' && is_html_content format
    then put tmp (codes "&lt;")
    else if c == b'>' && is_html_content format
    then put tmp (codes "&rt;")
    else if c == b'&'
    then put tmp (codes "&amp;")
    else put tmp (c ∷ [])

-- What a round of either loop stores for a glyph.
unfoldable pub put_glyph : GenericFormat → ℕ → ℕ → Bytes → Option Bytes
unfolding put_ascii
put_glyph utf8 c glyph tmp = put tmp (utf32_to_8 glyph)
put_glyph format c glyph tmp =
    if ltb glyph 0x80 then put_ascii format c tmp else put_formatted tmp (entity glyph)

-- The buffer, and what was handed to `real_append`.
pub record Output : Type 0 where
  pub tmp : Bytes
  pub appended : List Bytes

abbrev pub no_output : Output
no_output = record { tmp = []; appended = [] }

-- `if (offset >= 100)`
abbrev pub flush_full : Output → Output
flush_full o =
    if leb 100 (length o.tmp) then record { tmp = []; appended = o.appended ++ o.tmp ∷ [] } else o

-- `if (offset > 0)`, behind the loop
abbrev pub flush_rest : Output → List Bytes
flush_rest o = if ltb 0 (length o.tmp) then o.appended ++ o.tmp ∷ [] else o.appended

unfoldable pub append_glyph : GenericFormat → ℕ → ℕ → Output → Option Output
unfolding put_glyph
append_glyph format c glyph o = do
  tmp ← put_glyph format c glyph o.tmp
  some (flush_full (record o { tmp = tmp }))

-- The loop of `operator<< (std::string_view const&)`.
unfoldable pub text_loop : GenericFormat → ConvertState → Bytes → Output → Option Output
text_loop format mbstate [] o = some o
text_loop format mbstate (c ∷ s) o = do
  let (glyph, mbstate') = utf8_to_32 c mbstate
  o' ← if glyph == 0 then some o else append_glyph format c glyph o
  text_loop format mbstate' s o'

abbrev text_body : GenericFormat → Bytes → Option (List Bytes)
text_body format s = do o ← text_loop format convert_state s no_output; some (flush_rest o)

unfoldable pub format_text : GenericFormat → Bytes → Option (List Bytes)
unfolding text_loop append_glyph
format_text verbatim s = some (s ∷ [])
format_text format s = text_body format s

-- The loop of `operator<< (std::u32string_view const&)`.
unfoldable pub glyph_loop : GenericFormat → List ℕ → Output → Option Output
glyph_loop format [] o = some o
glyph_loop format (glyph ∷ s) o = do o' ← append_glyph format glyph glyph o; glyph_loop format s o'

-- The four bytes of a char32_t in memory, on a little-endian machine.
abbrev pub raw_glyph : ℕ → Bytes
raw_glyph g = (g % 256) ∷ (g / 256 % 256) ∷ (g / 65536 % 256) ∷ (g / 16777216 % 256) ∷ []

abbrev pub raw_glyphs : List ℕ → Bytes
raw_glyphs [] = []
raw_glyphs (g ∷ s) = raw_glyph g ++ raw_glyphs s

abbrev glyph_body : GenericFormat → List ℕ → Option (List Bytes)
glyph_body format s = do o ← glyph_loop format s no_output; some (flush_rest o)

unfoldable pub format_glyphs : GenericFormat → List ℕ → Option (List Bytes)
unfolding glyph_loop append_glyph
format_glyphs verbatim s = some (raw_glyphs s ∷ [])
format_glyphs format s = glyph_body format s

-- `operator<<` of a bool and of a char: neither looks at the format.
unfoldable pub format_bool : Bool → List Bytes
format_bool true = codes "true" ∷ []
format_bool false = codes "false" ∷ []

unfoldable pub format_char : ℕ → List Bytes
format_char c = (c ∷ []) ∷ []
