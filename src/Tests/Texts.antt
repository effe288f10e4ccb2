-- ===== src/Tests/Texts.antt =====
-- Texts of requests: escapes, UTF-8, routes, query strings and ports.
use fcgiserver.Prelude.{ℕ, ◌≡◌, true, false, List, [], ◌∷◌, Bytes, codes, arith}
use fcgiserver.Request.Codec.{query_decode, utf8_decode, utf8_encode}
use fcgiserver.Request.Codec.Query.{Piece, plain, escaped, spell, meaning, query_decode-spell}
use fcgiserver.Request.Codec.Utf8.{utf8_decode-utf8_encode}
use fcgiserver.Request.Parse.{Param, parse_route, parse_query}
use fcgiserver.Request.Parse.Route.{path, parse_route-path}
use fcgiserver.Request.Parse.Params.{spell_query, parse_query-spell_query}

abbrev two_pieces : List Piece
two_pieces = plain b'a' ∷ escaped true false 0x2f ∷ []

query_decode-spell_example : query_decode (spell two_pieces) ≡ meaning two_pieces
query_decode-spell_example = query_decode-spell two_pieces (ground arith)

abbrev four_glyphs : List ℕ
four_glyphs = 0x61 ∷ 0xe9 ∷ 0x20ac ∷ 0x1f600 ∷ []

utf8_decode-utf8_encode_example : utf8_decode (utf8_encode four_glyphs) ≡ four_glyphs
utf8_decode-utf8_encode_example = utf8_decode-utf8_encode four_glyphs (ground arith)

abbrev two_components : List Bytes
two_components = codes "users" ∷ codes "42" ∷ []

parse_route-path_example : parse_route (path two_components) ≡ two_components
parse_route-path_example = parse_route-path two_components (ground arith)

abbrev two_params : List Param
two_params = (codes "a", codes "1=2") ∷ (codes "b", []) ∷ []

parse_query-spell_query_example : parse_query (spell_query two_params) ≡ two_params
parse_query-spell_query_example = parse_query-spell_query two_params (ground arith)
