-- ===== src/Server/Answer/Settled.antt =====
-- The status that is sent (src/lib/server.cpp).
use fcgiserver.Prelude.{
  ◌≡◌, ◌≢◌, ◌∙◌, ap, refl, true, false, [], ◌∷◌, none, some, Bytes, arith, Bool-cases, Option-cases,
  inl, inr,
}
use fcgiserver.Strings.{is_empty}
use fcgiserver.Digits.{print}
use fcgiserver.Logger.Stream.{recoded}
use fcgiserver.Request.Response.{HeaderMap, find_header, emplace, or_empty, status_symbol}
use fcgiserver.Request.Response.Headers.{find_header-emplace}
use fcgiserver.Request.State.Texts.{IsText, emplace-IsText, print-IsByte}
use fcgiserver.Router.Context.{RouteResult, handled, not_found, invalid_method, internal_error}
use fcgiserver.Server.Answer.{status_code}
use fcgiserver.Server.Answer.Status.{with_code}

-- The status has a glyph, if the router set it.
abbrev pub HasStatus : HeaderMap → Type 0
HasStatus headers =
    (status : Bytes) → find_header status_symbol headers ≡ some status → recoded status ≢ []

pub code_recoded : (result : RouteResult) → recoded (print 10 (status_code result)) ≢ []
unfolding print status_code fcgiserver.Request.Codec.utf8_decode
    fcgiserver.Request.Codec.utf8_encode fcgiserver.Utils.utf8_to_32 fcgiserver.Utils.utf32_to_8
code_recoded handled h = ground arith
code_recoded not_found h = ground arith
code_recoded invalid_method h = ground arith
code_recoded internal_error h = ground arith

empty_recoded : recoded [] ≡ []
unfolding fcgiserver.Request.Codec.utf8_decode fcgiserver.Request.Codec.utf8_encode
empty_recoded = refl

is_empty→nil : (text : Bytes) → is_empty text ≡ true → text ≡ []
is_empty→nil [] h = refl
is_empty→nil (c ∷ text) h = ground arith

pub not_empty :
    (headers : HeaderMap)
    → HasStatus headers
    → find_header status_symbol headers ≢ none
    → is_empty (or_empty (find_header status_symbol headers)) ≡ false
not_empty headers shows there = elim (Option-cases (find_header status_symbol headers)) [
  | inl missing ↦ absurd (there missing)
  | inr (status, given) ↦ elim (Bool-cases (is_empty status)) [
    | inl empty ↦
        absurd (shows status given (ap recoded (is_empty→nil status empty) ∙ empty_recoded))
    | inr shown ↦ rw given shown
  ]
]

pub find_status :
    (text : Bytes) → find_header status_symbol ((status_symbol, text) ∷ []) ≡ some text
unfolding find_header
find_status text = refl

-- The status that is sent: the router's, or the code of its result.
abbrev pub sent_status : RouteResult → HeaderMap → Bytes
sent_status result headers =
    or_empty (find_header status_symbol (with_code (status_code result) headers))

pub record Settled (result : RouteResult) (headers : HeaderMap) : Type 0 where
  pub given :
      find_header status_symbol (with_code (status_code result) headers)
      ≡ some (sent_status result headers)
  pub shown : recoded (sent_status result headers) ≢ []
  pub texts : IsText (with_code (status_code result) headers)

pub with_code-Settled :
    (result : RouteResult) (headers : HeaderMap)
    → IsText headers
    → HasStatus headers
    → Settled result headers
with_code-Settled result headers texts h =
    let code = print 10 (status_code result) in
    elim (Option-cases (find_header status_symbol headers)) [
      | inl missing ↦
          let set : find_header status_symbol (emplace status_symbol code headers) ≡ some code =
            find_header-emplace status_symbol status_symbol code headers
            ∙ rw (missing, find_status code) in
          record {
            given = rw (missing, set);
            shown = rw (missing, set) (code_recoded result);
            texts = rw missing (
                emplace-IsText status_symbol code headers (print-IsByte (status_code result))
                  texts);
          }
      | inr (status, given) ↦ elim (Bool-cases (is_empty status)) [
        | inl empty ↦
            absurd (h status given (ap recoded (is_empty→nil status empty) ∙ empty_recoded))
        | inr there ↦ record {
          given = rw (given, there, given);
          shown = rw (given, there, given) (h status given);
          texts = rw (given, there) texts;
        }
      ]
    ]
