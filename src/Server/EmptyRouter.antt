-- ===== src/Server/EmptyRouter.antt =====
-- src/lib/server.cpp: `class EmptyRouter`, the router of a server that was given none.
pub mod Shown
pub mod Page
use fcgiserver.Prelude.{
  ℕ, Bool, true, false, List, [], ◌∷◌, Option, none, some, Bytes, codes, equal, if◌then◌else◌,
  ◌>>=◌,
}
use fcgiserver.Logger.{LogLevel}
use fcgiserver.RequestContext.{RequestContext}
use fcgiserver.Request.Response.{CgiData, HeaderMap, Response, set_content_type, write}
use fcgiserver.Request.State.{Request, document_uri}
use fcgiserver.Router.Context.{handled, not_found}
use fcgiserver.Server.Answer.{Outcome, returns, Handler, change_response}

-- The texts that are written behind the first.
abbrev pub page_rest : List Bytes
page_rest =
    codes "<html lang=\"en\">\n"
    ∷ codes "<head><meta charset=\"utf-8\" /><title>FCGIserver online</title></head>\n"
    ∷ codes "<body>\n"
    ∷ codes "<h1>Hello world</h1>\n"
    ∷ codes
        "Congratulations! Your server is working. Now it is time to register a router and add some content!\n"
    ∷ codes "</body>\n</html>\n"
    ∷ []

abbrev pub page : List Bytes
page = codes "<!DOCTYPE html>\n" ∷ page_rest

-- A sequence of `request.write`.
abbrev pub write_texts :
    {D L : Type 0} → CgiData D → (HeaderMap → HeaderMap) → List Bytes → Request D L → Request D L
write_texts cgi iterate [] r = r
write_texts cgi iterate (text ∷ texts) r =
    write_texts cgi iterate texts
      (record r { response = (write r.symbols cgi iterate text r.response).1 })

unfoldable pub empty_router :
    {D L U V : Type 0}
    → (LogLevel → Bytes → L → L)
    → CgiData D
    → (HeaderMap → HeaderMap)
    → Handler D L U V
empty_router log_message cgi iterate c =
    let (uri, r) = document_uri c.request in
    if equal uri (codes "/")
    then (change_response
          (λ s method uri'. set_content_type log_message s method uri' (codes "text/html")) r
        >>= λ r'. some (returns handled, record c { request = write_texts cgi iterate page r' }))
    else some (returns not_found, record c { request = r })
