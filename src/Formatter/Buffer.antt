-- ===== src/Formatter/Buffer.antt =====
-- One glyph in the scratch buffer: the bytes that it becomes, and the room that they take.
use fcgiserver.Prelude.{
  ℕ, ◌≤◌, ◌<◌, ◌^◌, ◌≡◌, ◌∙◌, sym, ◌&&◌, [], ◌∷◌, ◌++◌, some, Option, Bytes, codes, length,
  length-append, concat, concat-append, append_assoc, append-nil, All, All-append, arith, ltb, leb,
  ◌==◌, if◌then◌else◌, Bool-cases, inl, inr,
}
use fcgiserver.Digits.{print}
use fcgiserver.Digits.Bounds.{length-print_hex_32}
use fcgiserver.Utils.{utf32_to_8}
use fcgiserver.Formatter.{
  GenericFormat, utf8, is_html_content, put_glyph, entity, Output, flush_full, append_glyph,
}

-- The text of a character below 0x80.
abbrev pub escape : GenericFormat → ℕ → Bytes
escape format c =
    if c == b'<' && is_html_content format
    then codes "&lt;"
    else if c == b'>' && is_html_content format
    then codes "&rt;"
    else if c == b'&'
    then codes "&amp;"
    else c ∷ []

-- What becomes of a glyph that the byte c completed, in a format other than `verbatim`.
unfoldable pub glyph_bytes : GenericFormat → ℕ → ℕ → Bytes
glyph_bytes utf8 c glyph = utf32_to_8 glyph
glyph_bytes format c glyph = if ltb glyph 0x80 then escape format c else entity glyph

length-utf32_to_8 : (g : ℕ) → length (utf32_to_8 g) ≤ 4
unfolding utf32_to_8
length-utf32_to_8 g = ground arith

length-entity : (g : ℕ) → g < 2 ^ 32 → length (entity g) ≤ 12
length-entity g h = omega (arith, length-append (print 16 g) (codes ";"), length-print_hex_32 g h)

length-glyph_bytes :
    (format : GenericFormat) (c g : ℕ) → g < 2 ^ 32 → length (glyph_bytes format c g) ≤ 12
unfolding glyph_bytes
length-glyph_bytes utf8 c g h = omega (arith, length-utf32_to_8 g)
length-glyph_bytes _ c g h = ground (arith, length-entity g h)

put_glyph-glyph_bytes :
    (format : GenericFormat) (c g : ℕ) (tmp : Bytes)
    → g < 2 ^ 32
    → length tmp < 100
    → put_glyph format c g tmp ≡ some (tmp ++ glyph_bytes format c g)
unfolding put_glyph glyph_bytes
put_glyph-glyph_bytes utf8 c g tmp h l = ground (arith, length-utf32_to_8 g)
put_glyph-glyph_bytes _ c g tmp h l = ground (arith, length-entity g h)

-- What an output holds in all.
abbrev pub written : Output → Bytes
written o = concat o.appended ++ o.tmp

-- A string for `real_append` is not empty, and fits the buffer.
abbrev pub IsChunk : Bytes → Type 0
IsChunk s = (0 < length s) × (length s ≤ 112)

pub record IsOutput (o : Output) : Type 0 where
  pub short : length o.tmp < 100
  pub chunks : All IsChunk o.appended

flush_full-IsOutput :
    (o : Output) → All IsChunk o.appended → length o.tmp ≤ 112 → IsOutput (flush_full o)
flush_full-IsOutput o a l = elim (Bool-cases (leb 100 (length o.tmp))) [
  | inl full ↦ rw full (record {
    short = omega arith;
    chunks = All-append IsChunk o.appended (o.tmp ∷ []) a (ground arith);
  })
  | inr room ↦ rw room (record { short = ground arith; chunks = a })
]

written-flush_full : (o : Output) → written (flush_full o) ≡ written o
written-flush_full o = elim (Bool-cases (leb 100 (length o.tmp))) [
  | inl full ↦ rw full (simp (concat-append, append-nil))
  | inr room ↦ rw room
]

pub record Extends (o : Output) (text : Bytes) (result : Option Output) : Type 0 where
  pub next : Output
  pub returns : result ≡ some next
  pub good : IsOutput next
  pub text_is : written next ≡ written o ++ text

-- A glyph is stored within the buffer, behind all that was written before.
pub append_glyph-Extends :
    (format : GenericFormat) (c g : ℕ) (o : Output)
    → g < 2 ^ 32
    → IsOutput o
    → Extends o (glyph_bytes format c g) (append_glyph format c g o)
unfolding append_glyph
append_glyph-Extends format c g o h v =
    let text = glyph_bytes format c g in
    let filled : Output = record o { tmp = o.tmp ++ text } in
    record {
      next = flush_full filled;
      returns = rw (put_glyph-glyph_bytes format c g o.tmp h v.short);
      good =
          flush_full-IsOutput filled v.chunks
            (omega (arith, v.short, length-append o.tmp text, length-glyph_bytes format c g h));
      text_is = written-flush_full filled ∙ sym (append_assoc (concat o.appended) o.tmp text);
    }
