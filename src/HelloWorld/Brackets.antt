-- ===== src/HelloWorld/Brackets.antt =====
-- The brackets on the example program's page (src/main/main.cpp): its own texts are sent as they are,
-- and HTML content has none.
use mathlib.Core.List.{map}
use fcgiserver.Prelude.{
  ℕ, ◌+◌, ◌<◌, ◌≡◌, ◌∙◌, ap, refl, Bool, true, false, ◌&&◌, not, List, [], ◌∷◌, ◌++◌, Bytes, codes,
  All, concat, arith, ltb, ◌==◌, if◌then◌else◌,
}
use fcgiserver.Symbols.{SymbolServer}
use fcgiserver.Utils.{ConvertState, convert_state}
use fcgiserver.Utils.RoundTrip.{reading, lead_1}
use fcgiserver.Utils.Glyphs.{glyphs}
use fcgiserver.Formatter.{html}
use fcgiserver.Formatter.Buffer.{glyph_bytes}
use fcgiserver.Formatter.Html.{IsHarmless, found_bytes-IsHarmless}
use fcgiserver.Formatter.Text.{found_bytes}
use fcgiserver.Request.Env.{EnvMap}
use fcgiserver.Request.Parse.{Param}
use fcgiserver.HelloWorld.{
  Piece, streams, escapes, page_start, table_start, param_rows, query_table, env_rows,
}
use fcgiserver.HelloWorld.Writing.{escaped, sent}

-- ASCII, neither NUL nor an ampersand.
abbrev is_plain : ℕ → Bool
is_plain c = ltb 0 c && (ltb c 0x80 && not (c == b'&'))

abbrev pub is_plain_text : Bytes → Bool
is_plain_text [] = true
is_plain_text (c ∷ text) = is_plain c && is_plain_text text

glyph_bytes_plain : (c : ℕ) → c < 128 → (c == b'&') ≡ false → glyph_bytes html c c ≡ c ∷ []
unfolding glyph_bytes
glyph_bytes_plain c small h = ground arith

glyphs_plain :
    (text : Bytes) (s : ConvertState)
    → s.remaining ≡ 0
    → is_plain_text text ≡ true
    → found_bytes html (glyphs s text) ≡ text
unfolding glyphs
glyphs_plain [] s z h = refl
glyphs_plain (c ∷ text) s z h =
    let small : c < 128 = ground arith in
    let not_zero : (c == 0) ≡ false = ground arith in
    let not_and : (c == b'&') ≡ false = ground arith in
    let rest : is_plain_text text ≡ true = ground arith in
    rw (lead_1 c s z small, not_zero)
      (rw (glyph_bytes_plain c small not_and)
        (ap (◌∷◌ c) (glyphs_plain text (reading c 0) refl rest)))

-- The program's own texts are sent as they are.
pub sent_plain : (text : Bytes) → is_plain_text text ≡ true → sent (streams text) ≡ text
sent_plain text h = glyphs_plain text convert_state refl h

-- How often a text has the bracket that opens a tag.
abbrev pub brackets : Bytes → ℕ
brackets [] = 0
brackets (c ∷ text) = (if c == b'<' then 1 else 0) + brackets text

brackets-append : (a b : Bytes) → brackets (a ++ b) ≡ brackets a + brackets b
brackets-append [] b = omega arith
brackets-append (c ∷ a) b = omega (arith, brackets-append a b)

brackets_none : (text : Bytes) → All IsHarmless text → brackets text ≡ 0
brackets_none [] h = refl
brackets_none (c ∷ text) ((open_bracket, _), hs) = ground (arith, brackets_none text hs)

-- The program's own texts.
abbrev pub own : Piece → Bytes
own (streams text) = text
own (escapes text) = []

abbrev pub OwnIsPlain : Piece → Type 0
OwnIsPlain (streams text) = is_plain_text text ≡ true
OwnIsPlain (escapes text) = Unit

brackets-sent : (piece : Piece) → OwnIsPlain piece → brackets (sent piece) ≡ brackets (own piece)
brackets-sent (streams text) h = rw (sent_plain text h)
brackets-sent (escapes text) _ =
    brackets_none (escaped text) (found_bytes-IsHarmless (glyphs convert_state text))

pub brackets-own :
    (pieces : List Piece)
    → All OwnIsPlain pieces
    → brackets (concat (map sent pieces)) ≡ brackets (concat (map own pieces))
brackets-own [] _ = refl
brackets-own (piece ∷ pieces) (h, hs) =
    brackets-append (sent piece) (concat (map sent pieces))
    ∙ rw (brackets-sent piece h, brackets-own pieces hs)
        (rw (brackets-append (own piece) (concat (map own pieces))))

pub page_start-OwnIsPlain : All OwnIsPlain page_start
page_start-OwnIsPlain = (refl, (refl, (refl, tt)))

param_rows-OwnIsPlain : (params : List Param) → All OwnIsPlain (param_rows params)
param_rows-OwnIsPlain [] = (refl, (refl, tt))
param_rows-OwnIsPlain ((key, value) ∷ params) =
    (refl, (tt, (refl, (tt, (refl, param_rows-OwnIsPlain params)))))

pub query_table-OwnIsPlain : (params : List Param) → All OwnIsPlain (query_table params)
query_table-OwnIsPlain [] = tt
query_table-OwnIsPlain (param ∷ params) =
    (refl, (refl, (refl, (refl, param_rows-OwnIsPlain (param ∷ params)))))

pub env_heading-OwnIsPlain : All OwnIsPlain (table_start (codes "<h2>Environment</h2>"))
env_heading-OwnIsPlain = (refl, (refl, (refl, (refl, tt))))

pub env_rows-OwnIsPlain : (s : SymbolServer) (env : EnvMap) → All OwnIsPlain (env_rows s env)
env_rows-OwnIsPlain s [] = (refl, (refl, (refl, tt)))
env_rows-OwnIsPlain s ((key, value) ∷ env) =
    (refl, (tt, (refl, (tt, (refl, env_rows-OwnIsPlain s env)))))
