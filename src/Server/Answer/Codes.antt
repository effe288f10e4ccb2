-- ===== src/Server/Answer/Codes.antt =====
-- The answer to a request that the router left alone (src/lib/server.cpp).
use fcgiserver.Prelude.{
  ℕ, ◌≡◌, ◌∙◌, ap, refl, List, [], ◌∷◌, ◌++◌, Option, some, Bytes, codes, concat, All, IsByte,
  arith,
}
use fcgiserver.Digits.{print}
use fcgiserver.Symbols.{SymbolServer}
use fcgiserver.Logger.{LogLevel}
use fcgiserver.Request.Response.{
  CgiData, HeaderMap, emplace, find_header, status_symbol, content_type_symbol, write_all,
}
use fcgiserver.Request.Response.Sending.{response_head}
use fcgiserver.Request.State.{Request, new_request}
use fcgiserver.Request.State.Texts.{HoldsBytes}
use fcgiserver.Router.Context.{RouteResult, handled, not_found, invalid_method, internal_error}
use fcgiserver.Server.Answer.{returns, status_code, answer}
use fcgiserver.Server.Answer.Settled.{HasStatus}
use fcgiserver.Server.Answer.Status.{with_code, closing_headers, closing_text}
use fcgiserver.Server.Answer.Closing.{answer-Answered}

-- The code of a result, as it is sent.
abbrev pub code_text : RouteResult → Bytes
code_text handled = codes "200"
code_text not_found = codes "404"
code_text invalid_method = codes "405"
code_text internal_error = codes "500"

abbrev pub code_headers : RouteResult → HeaderMap
code_headers result =
    (status_symbol, code_text result) ∷ (content_type_symbol, codes "text/plain") ∷ []

printed : (result : RouteResult) → print 10 (status_code result) ≡ code_text result
unfolding print status_code
printed handled = refl
printed not_found = refl
printed invalid_method = refl
printed internal_error = refl

first_header : (code : ℕ) → with_code code [] ≡ (status_symbol, print 10 code) ∷ []
unfolding find_header emplace
first_header code = refl

both_headers :
    (code : Bytes)
    → closing_headers ((status_symbol, code) ∷ [])
      ≡ (status_symbol, code) ∷ (content_type_symbol, codes "text/plain") ∷ []
unfolding find_header emplace
both_headers code = refl

code_recoded :
    (result : RouteResult)
    → closing_text ((status_symbol, code_text result) ∷ []) ≡ code_text result
unfolding find_header fcgiserver.Request.Codec.utf8_decode fcgiserver.Request.Codec.utf8_encode
    fcgiserver.Utils.utf8_to_32 fcgiserver.Utils.utf32_to_8
code_recoded handled = refl
code_recoded not_found = refl
code_recoded invalid_method = refl
code_recoded internal_error = refl

no_status : HasStatus []
unfolding find_header
no_status status h = absurd (ground arith)

-- A new request whose environment is bytes, for which the router returned a result and did nothing
-- else, is answered with the code of the result, 200, 404, 405 or 500: as its status, with the type
-- text/plain, and as the body.
pub answer-code_text :
    {D L : Type 0} (log_message : LogLevel → Bytes → L → L) (cgi : CgiData D)
    (iterate : HeaderMap → HeaderMap) (id : ℕ) (result : RouteResult) (s : SymbolServer)
    (lines : List Bytes) (d : D) (lg : Option L)
    → All (All IsByte) lines
    → (next : Request D L) × (body : List Bytes) × (answer log_message cgi iterate id
          (returns result)
          (new_request s lines d lg)
        ≡ some next)
      × (concat body ≡ code_text result)
      × (next.response.cgi_data
          ≡ write_all cgi (response_head s iterate (code_headers result) ++ body) d)
answer-code_text log_message cgi iterate id result s lines d lg bytes =
    let r = new_request s lines d lg in
    let h : HoldsBytes r = record { lines = bytes; values = tt; headers = tt } in
    let a =
      answer-Answered log_message cgi iterate id (returns result) r h tt no_status
        (λ sent. absurd (ground arith)) in
    let headers : with_code (status_code result) [] ≡ (status_symbol, code_text result) ∷ [] =
      first_header (status_code result)
      ∙ ap (λ code. (status_symbol, code) ∷ []) (printed result) in
    (
      a.next,
      a.body,
      a.returns,
      a.spells ∙ ap closing_text headers ∙ code_recoded result,
      a.wrote
          ∙ ap (λ x. write_all cgi (response_head s iterate (closing_headers x) ++ a.body) d)
              headers
          ∙ ap (λ x. write_all cgi (response_head s iterate x ++ a.body) d)
              (both_headers (code_text result)),
    )
