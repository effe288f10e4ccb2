-- ===== src/Server/EmptyRouter/Shown.antt =====
-- What the router of a server without one does to the response (src/lib/server.cpp).
use fcgiserver.Prelude.{
  ◌≡◌, ◌≢◌, ◌∙◌, sym, ap, refl, Bool, true, false, List, [], ◌∷◌, ◌++◌, none, some, Bytes, codes,
  if◌then◌else◌, arith,
}
use fcgiserver.Logger.{LogLevel}
use fcgiserver.Logger.Stream.{recoded}
use fcgiserver.Symbols.{SymbolServer}
use fcgiserver.Request.Parse.{ContentEncoding}
use fcgiserver.Request.Response.{
  CgiData, HeaderMap, find_header, emplace, Response, content_type_symbol, status_symbol,
  with_status, set_header, set_content_type, set_content_type_as, write, write_all,
}
use fcgiserver.Request.Response.Sending.{write_each, write_each-write_all, response_head}
use fcgiserver.Request.Stream.Bodies.{IsSent, write_each-kept, write-first}
use fcgiserver.Request.State.{Request}
use fcgiserver.Request.State.Texts.{IsText}
use fcgiserver.Server.Answer.{change_response}
use fcgiserver.Server.EmptyRouter.{page, page_rest, write_texts}

abbrev pub html_header : HeaderMap
html_header = (content_type_symbol, codes "text/html") ∷ []

module _ {D L : Type 0} (log_message : LogLevel → Bytes → L → L) (cgi : CgiData D)
    (iterate : HeaderMap → HeaderMap) where
  pub write_texts-write_each :
      (texts : List Bytes) (r : Request D L)
      → write_texts cgi iterate texts r
        ≡ record r { response = write_each r.symbols cgi iterate texts r.response }
  write_texts-write_each [] r = refl
  write_texts-write_each (text ∷ texts) r =
      write_texts-write_each texts
        (record r { response = (write r.symbols cgi iterate text r.response).1 })

  -- The response that the page is written to.
  abbrev pub opened : Request D L → Response D L
  opened r = record r.response { headers = html_header; encoding = some ContentEncoding.html }

  pub set_content_type-opened :
      (r : Request D L)
      → r.response.headers_sent ≡ false
      → r.response.headers ≡ []
      → change_response
          (λ s method uri. set_content_type log_message s method uri (codes "text/html"))
          r
        ≡ some (record r { response = opened r })
  unfolding set_content_type set_content_type_as set_header emplace
      fcgiserver.Request.Parse.detect_encoding
  set_content_type-opened r unsent no_headers = rw (unsent, no_headers)

  pub open_header : (r : Request D L) → IsText (with_status html_header)
  unfolding emplace
  open_header r = ground arith

  -- The request after the router, at the URI / and elsewhere.
  abbrev pub shown : Bool → Request D L → Request D L
  shown true r = record r { response = write_each r.symbols cgi iterate page (opened r) }
  shown false r = r

  texts-IsSent :
      (s : SymbolServer) (text : Bytes) (texts : List Bytes) (r : Response D L)
      → r.headers_sent ≡ false
      → IsSent cgi iterate s
          (with_status r.headers)
          r.logger
          (write_each s cgi iterate (text ∷ texts) r)
  texts-IsSent s text texts r unsent =
      write_each-kept cgi iterate s texts (write s cgi iterate text r).1
        (write-first cgi iterate s text r unsent)

  pub shown-IsSent :
      (r : Request D L)
      → r.response.headers_sent ≡ false
      → IsSent cgi iterate r.symbols
          (with_status html_header)
          r.response.logger
          (shown true r).response
  shown-IsSent r unsent =
      texts-IsSent r.symbols (codes "<!DOCTYPE html>\n") page_rest (opened r) unsent

  pub shown_data :
      (at_root : Bool) (r : Request D L)
      → r.response.headers_sent ≡ false
      → (shown at_root r).response.cgi_data ≡ (
          if at_root
          then write_all cgi
              (response_head r.symbols iterate html_header ++ page)
              r.response.cgi_data
          else r.response.cgi_data)
  shown_data true r unsent =
      write_each-write_all r.symbols cgi iterate (codes "<!DOCTYPE html>\n") page_rest (opened r)
        unsent
  shown_data false r unsent = refl

pub html_status : find_header status_symbol (with_status html_header) ≡ some (codes "200")
unfolding find_header emplace
html_status = refl

pub none_found : (headers : HeaderMap) → headers ≡ [] → find_header status_symbol headers ≡ none
unfolding find_header
none_found headers h = rw h

pub some-ne-none : {text : Bytes} → some text ≢ none
some-ne-none h = ground arith

pub other_recoded : (status : Bytes) → some (codes "200") ≡ some status → recoded status ≢ []
unfolding fcgiserver.Request.Codec.utf8_decode fcgiserver.Request.Codec.utf8_encode
    fcgiserver.Utils.utf8_to_32 fcgiserver.Utils.utf32_to_8
other_recoded status same empty =
    let e : status ≡ codes "200" = ground arith in
    let bad : recoded (codes "200") ≡ [] = ap recoded (sym e) ∙ empty in ground arith
