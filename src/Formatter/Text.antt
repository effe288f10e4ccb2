-- ===== src/Formatter/Text.antt =====
-- The two loops of the formatter, over bytes and over glyphs, as one loop over what a text holds.
use fcgiserver.Prelude.{
  ℕ, ◌<◌, ◌^◌, ◌≡◌, ◌≢◌, ◌∙◌, sym, ap, refl, List, [], ◌∷◌, ◌++◌, some, Option, Bytes, length,
  concat, concat-append, append_assoc, append-nil, All, All-append, All-map, IsByte, arith, ltb,
  ltb_zero_suc, ◌==◌, ◌>>=◌, Bool-cases, inl, inr,
}
use fcgiserver.Utils.{ConvertState, convert_state, utf8_to_32}
use fcgiserver.Utils.Decoder.{convert_state-IsDecoding}
use fcgiserver.Utils.Glyphs.{Found, glyphs, glyphs-lt, last_byte, encoded, IsGlyph}
use fcgiserver.Request.Codec.{utf8_encode}
use fcgiserver.Request.Codec.Utf8.{glyphs-utf8_encode}
use fcgiserver.Formatter.{
  GenericFormat, verbatim, utf8, Output, no_output, flush_rest, put_glyph, append_glyph, text_loop,
  format_text, glyph_loop, format_glyphs,
}
use fcgiserver.Formatter.Buffer.{
  glyph_bytes, written, IsChunk, IsOutput, Extends, append_glyph-Extends,
}

-- The loop over what the decoder finds.
abbrev found_loop : GenericFormat → List Found → Output → Option Output
found_loop format [] o = some o
found_loop format (x ∷ xs) o = append_glyph format x.byte x.glyph o >>= found_loop format xs

-- The text that it writes.
abbrev pub found_bytes : GenericFormat → List Found → Bytes
found_bytes format [] = []
found_bytes format (x ∷ xs) = glyph_bytes format x.byte x.glyph ++ found_bytes format xs

text_loop-found_loop :
    (format : GenericFormat) (s : Bytes) (mbstate : ConvertState) (o : Output)
    → text_loop format mbstate s o ≡ found_loop format (glyphs mbstate s) o
unfolding text_loop glyphs
text_loop-found_loop format [] mbstate o = refl
text_loop-found_loop format (c ∷ s) mbstate o =
    let (glyph, mbstate') = utf8_to_32 c mbstate in
    elim (Bool-cases (glyph == 0)) [
      | inl missing ↦ rw missing (text_loop-found_loop format s mbstate' o)
      | inr whole ↦ rw whole (
          ap (◌>>=◌ (append_glyph format c glyph o))
            (λ i o'. text_loop-found_loop format s mbstate' o' i))
    ]

append_glyph-last_byte :
    (format : GenericFormat) (g : ℕ) (o : Output)
    → append_glyph format (last_byte g) g o ≡ append_glyph format g g o
unfolding append_glyph put_glyph last_byte
append_glyph-last_byte utf8 g o = refl
append_glyph-last_byte format g o = elim (Bool-cases (ltb g 0x80)) [
  | inl one ↦ rw one
  | inr more ↦ rw more
]

glyph_loop-found_loop :
    (format : GenericFormat) (gs : List ℕ) (o : Output)
    → glyph_loop format gs o ≡ found_loop format (encoded gs) o
unfolding glyph_loop
glyph_loop-found_loop format [] o = refl
glyph_loop-found_loop format (g ∷ gs) o =
    rw (append_glyph-last_byte format g o)
      (ap (◌>>=◌ (append_glyph format g g o)) (λ i o'. glyph_loop-found_loop format gs o' i))

found_loop-Extends :
    (format : GenericFormat) (xs : List Found) (o : Output)
    → All (λ (x : Found). x.glyph < 2 ^ 32) xs
    → IsOutput o
    → Extends o (found_bytes format xs) (found_loop format xs o)
found_loop-Extends format [] o _ v = record {
  next = o;
  returns = refl;
  good = v;
  text_is = sym (append-nil (written o));
}
found_loop-Extends format (x ∷ xs) o (h, hs) v =
    let first = append_glyph-Extends format x.byte x.glyph o h v in
    let more = found_loop-Extends format xs first.next hs first.good in
    record {
      next = more.next;
      returns = rw first.returns more.returns;
      good = more.good;
      text_is =
          more.text_is
          ∙ ap (λ t. t ++ found_bytes format xs) first.text_is
          ∙ append_assoc (written o) (glyph_bytes format x.byte x.glyph) (found_bytes format xs);
    }

encoded-lt :
    (gs : List ℕ) → All (λ g. g < 2 ^ 32) gs → All (λ (x : Found). x.glyph < 2 ^ 32) (encoded gs)
encoded-lt [] _ = tt
encoded-lt (g ∷ gs) (h, hs) = (h, encoded-lt gs hs)

-- The code returns, with strings for `real_append` that spell `text`; none of them is empty, and
-- each fits the buffer.
pub record Formats (text : Bytes) (result : Option (List Bytes)) : Type 0 where
  pub strings : List Bytes
  pub returns : result ≡ some strings
  pub spells : concat strings ≡ text
  pub chunks : All IsChunk strings

no_output-IsOutput : IsOutput no_output
no_output-IsOutput = record { short = omega arith; chunks = tt }

concat-flush_tmp :
    (a : List Bytes) (tmp : Bytes)
    → concat (flush_rest (record { tmp = tmp; appended = a })) ≡ concat a ++ tmp
concat-flush_tmp a [] = sym (append-nil (concat a))
concat-flush_tmp a (c ∷ tmp) = rw (ltb_zero_suc (length tmp)) (simp (concat-append, append-nil))

flush_tmp-IsChunk :
    (a : List Bytes) (tmp : Bytes)
    → All IsChunk a
    → length tmp < 100
    → All IsChunk (flush_rest (record { tmp = tmp; appended = a }))
flush_tmp-IsChunk a [] h l = h
flush_tmp-IsChunk a (c ∷ tmp) h l =
    rw (ltb_zero_suc (length tmp)) (All-append IsChunk a ((c ∷ tmp) ∷ []) h (omega arith))

flush_rest-Formats :
    {text : Bytes} (result : Option Output)
    → Extends no_output text result
    → Formats text (result >>= λ o. some (flush_rest o))
flush_rest-Formats result e = record {
  strings = flush_rest e.next;
  returns = rw e.returns;
  spells = concat-flush_tmp e.next.appended e.next.tmp ∙ e.text_is;
  chunks = flush_tmp-IsChunk e.next.appended e.next.tmp e.good.chunks e.good.short;
}

loop-Formats :
    (format : GenericFormat) (xs : List Found)
    → All (λ (x : Found). x.glyph < 2 ^ 32) xs
    → Formats (found_bytes format xs) (found_loop format xs no_output >>= λ o. some (flush_rest o))
loop-Formats format xs h =
    flush_rest-Formats _ (found_loop-Extends format xs no_output h no_output-IsOutput)

text_body-Formats :
    (format : GenericFormat) (s : Bytes)
    → All IsByte s
    → Formats
        (found_bytes format (glyphs convert_state s))
        (text_loop format convert_state s no_output >>= λ o. some (flush_rest o))
text_body-Formats format s h = rw (text_loop-found_loop format s convert_state no_output) (
    loop-Formats format (glyphs convert_state s) (
      All-map (λ (x : Found) h. omega arith) _
        (glyphs-lt s convert_state convert_state-IsDecoding h)))

-- Formatting bytes in a format other than verbatim never leaves the scratch buffer. It hands over the
-- text of the glyphs that the decoder finds, in order, in strings that are not empty and of at most
-- 112 bytes.
pub format_text-Formats :
    (format : GenericFormat) (s : Bytes)
    → format ≢ verbatim
    → All IsByte s
    → Formats (found_bytes format (glyphs convert_state s)) (format_text format s)
unfolding format_text
format_text-Formats verbatim s n h = absurd (n refl)
format_text-Formats format s n h = text_body-Formats format s h

-- Formatting glyphs of 32 bits in a format other than verbatim never leaves the scratch buffer. It
-- hands over the text of the glyphs, in order, in strings that are not empty and of at most 112 bytes.
pub format_glyphs-Formats :
    (format : GenericFormat) (gs : List ℕ)
    → format ≢ verbatim
    → All (λ g. g < 2 ^ 32) gs
    → Formats (found_bytes format (encoded gs)) (format_glyphs format gs)
unfolding format_glyphs
format_glyphs-Formats verbatim gs n h = absurd (n refl)
format_glyphs-Formats format gs n h =
    rw (glyph_loop-found_loop format gs no_output)
      (loop-Formats format (encoded gs) (encoded-lt gs h))

-- In a format other than verbatim, formatting the UTF-8 encoding of glyphs below 0x110000 that are not
-- 0 hands over the same strings as formatting those glyphs.
pub format_text-utf8_encode :
    (format : GenericFormat) (gs : List ℕ)
    → format ≢ verbatim
    → All IsGlyph gs
    → format_text format (utf8_encode gs) ≡ format_glyphs format gs
unfolding format_text format_glyphs
format_text-utf8_encode verbatim gs n h = absurd (n refl)
format_text-utf8_encode format gs n h = rw (
  text_loop-found_loop format (utf8_encode gs) convert_state no_output,
  glyphs-utf8_encode gs h,
  glyph_loop-found_loop format gs no_output,
)
