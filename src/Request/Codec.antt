-- ===== src/Request/Codec.antt =====
-- src/lib/request.cpp: the static functions `query_decode`, `utf8_decode` and `utf8_encode`.
-- A loop over a string is a recursion on what is left of it.
pub mod Query
pub mod Utf8
use fcgiserver.Prelude.{ℕ, List, [], ◌∷◌, ◌++◌, none, some, Bytes, ◌==◌, if◌then◌else◌}
use fcgiserver.Utils.{unhex, ConvertState, convert_state, utf8_to_32, utf32_to_8}

-- `idx + 2 < value.size()` says that two more bytes follow the current one.
unfoldable pub query_decode : Bytes → Bytes
query_decode [] = []
query_decode (c ∷ d ∷ e ∷ rest) =
    let after_escape = query_decode rest in
    let copied = c ∷ query_decode (d ∷ e ∷ rest) in
    if c == b'%' then elim (unhex d e) [ none ↦ copied | some chr ↦ chr ∷ after_escape ] else copied
query_decode (c ∷ rest) = c ∷ query_decode rest

-- One round of `utf8_decode`: the glyph 0 is not stored.
abbrev pub push_glyph : ℕ → List ℕ → List ℕ
push_glyph glyph later = if glyph == 0 then later else glyph ∷ later

unfoldable pub utf8_decode_from : ConvertState → Bytes → List ℕ
utf8_decode_from mbstate [] = []
utf8_decode_from mbstate (c ∷ rest) =
    let (glyph, mbstate') = utf8_to_32 c mbstate in
    push_glyph glyph (utf8_decode_from mbstate' rest)

unfoldable pub utf8_decode : Bytes → List ℕ
unfolding utf8_decode_from
utf8_decode = utf8_decode_from convert_state

unfoldable pub utf8_encode : List ℕ → Bytes
utf8_encode [] = []
utf8_encode (glyph ∷ rest) = utf32_to_8 glyph ++ utf8_encode rest
