-- ===== src/Request/Codec/Query.antt =====
-- Percent-decoding against a description of percent-encoded text.
use fcgiserver.Prelude.{
  ℕ, ◌/◌, ◌%◌, ◌≤◌, ◌≡◌, ◌≢◌, refl, ap, Bool, List, [], ◌∷◌, Bytes, arith, length, IsByte, All,
}
use fcgiserver.Utils.Hex.{hex_digit, unhex-hex_digit}
use fcgiserver.Request.Codec.{query_decode}

-- A piece of encoded text: a byte that stands for itself, or the escape of a byte, its two digits
-- in either case.
pub data Piece : Type 0 where
  plain : ℕ → Piece
  escaped : Bool → Bool → ℕ → Piece

abbrev pub spell : List Piece → Bytes
spell [] = []
spell (plain c ∷ ps) = c ∷ spell ps
spell (escaped upper upper' c ∷ ps) =
    b'%' ∷ hex_digit upper (c / 16) ∷ hex_digit upper' (c % 16) ∷ spell ps

abbrev pub meaning : List Piece → Bytes
meaning [] = []
meaning (plain c ∷ ps) = c ∷ meaning ps
meaning (escaped _ _ c ∷ ps) = c ∷ meaning ps

-- A percent sign does not stand for itself, and an escape is that of a byte.
abbrev pub IsEncoded : Piece → Type 0
IsEncoded (plain c) = c ≢ b'%'
IsEncoded (escaped _ _ c) = IsByte c

query_decode_plain :
    (c : ℕ) (rest : Bytes) → c ≢ b'%' → query_decode (c ∷ rest) ≡ c ∷ query_decode rest
unfolding query_decode
query_decode_plain c [] h = refl
query_decode_plain c (d ∷ []) h = refl
query_decode_plain c (d ∷ e ∷ rest) h = ground arith

query_decode_escape :
    (upper upper' : Bool) (c : ℕ) (rest : Bytes)
    → IsByte c
    → query_decode (b'%' ∷ hex_digit upper (c / 16) ∷ hex_digit upper' (c % 16) ∷ rest)
      ≡ c ∷ query_decode rest
unfolding query_decode
query_decode_escape upper upper' c rest h = rw (unhex-hex_digit upper upper' c h)

-- Percent-encoded text is decoded to what it means, whichever bytes it escapes; a plus sign, as
-- any other unescaped byte but the percent sign, stands for itself.
pub query_decode-spell : (ps : List Piece) → All IsEncoded ps → query_decode (spell ps) ≡ meaning ps
query_decode-spell [] _ = unfold query_decode in refl
query_decode-spell (plain c ∷ ps) (h, hs) =
    rw (query_decode_plain c (spell ps) h) (ap (◌∷◌ c) (query_decode-spell ps hs))
query_decode-spell (escaped upper upper' c ∷ ps) (h, hs) =
    rw (query_decode_escape upper upper' c (spell ps) h) (ap (◌∷◌ c) (query_decode-spell ps hs))

-- Decoding never makes a text longer.
pub length-query_decode-le : (s : Bytes) → length (query_decode s) ≤ length s
unfolding query_decode
length-query_decode-le [] = omega arith
length-query_decode-le (c ∷ []) = omega arith
length-query_decode-le (c ∷ d ∷ []) = omega arith
length-query_decode-le (c ∷ d ∷ e ∷ rest) =
    ground (arith, length-query_decode-le rest, length-query_decode-le (d ∷ e ∷ rest))
