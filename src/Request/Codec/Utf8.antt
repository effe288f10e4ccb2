-- ===== src/Request/Codec/Utf8.antt =====
-- `utf8_decode` after `utf8_encode` (src/lib/request.cpp).
use fcgiserver.Prelude.{ℕ, ◌≡◌, refl, List, [], ◌∷◌, Bytes, arith, All}
use mathlib.Core.List.{map}
use fcgiserver.Utils.{ConvertState, convert_state, utf8_to_32}
use fcgiserver.Utils.RoundTrip.{reading}
use fcgiserver.Utils.Glyphs.{glyphs, glyphs-utf32_to_8, encoded, IsGlyph}
use fcgiserver.Request.Codec.{utf8_decode_from, utf8_decode, utf8_encode}

utf8_decode_from-glyphs :
    (bs : Bytes) (s : ConvertState) → utf8_decode_from s bs ≡ map (λ x. x.glyph) (glyphs s bs)
unfolding utf8_decode_from glyphs
utf8_decode_from-glyphs [] s = refl
utf8_decode_from-glyphs (c ∷ bs) s = ground (arith, utf8_decode_from-glyphs bs (utf8_to_32 c s).1)

-- `utf8_decode` returns the glyphs that the decoder finds.
pub utf8_decode-glyphs :
    (bs : Bytes) → utf8_decode bs ≡ map (λ x. x.glyph) (glyphs convert_state bs)
unfolding utf8_decode
utf8_decode-glyphs bs = utf8_decode_from-glyphs bs convert_state

glyphs-utf8_encode_from :
    (gs : List ℕ) (s : ConvertState)
    → s.remaining ≡ 0
    → All IsGlyph gs
    → glyphs s (utf8_encode gs) ≡ encoded gs
unfolding utf8_encode
glyphs-utf8_encode_from [] s z _ = unfold glyphs in refl
glyphs-utf8_encode_from (g ∷ gs) s z ((ne, h), hs) =
    rw (glyphs-utf32_to_8 g s (utf8_encode gs) z h)
      (ground (arith, glyphs-utf8_encode_from gs (reading g 0) refl hs))

-- In the encoding of glyphs the decoder finds those glyphs.
pub glyphs-utf8_encode :
    (gs : List ℕ) → All IsGlyph gs → glyphs convert_state (utf8_encode gs) ≡ encoded gs
glyphs-utf8_encode gs h = glyphs-utf8_encode_from gs convert_state refl h

map-encoded : (gs : List ℕ) → map (λ x. x.glyph) (encoded gs) ≡ gs
map-encoded [] = refl
map-encoded (g ∷ gs) = rw (map-encoded gs)

-- Decoding an encoded text gives it back, if every glyph is below 0x110000 and none is 0.
pub utf8_decode-utf8_encode : (gs : List ℕ) → All IsGlyph gs → utf8_decode (utf8_encode gs) ≡ gs
utf8_decode-utf8_encode gs h = rw (utf8_decode-glyphs, glyphs-utf8_encode gs h) (map-encoded gs)
