-- ===== src/Server/Answer/Guards.antt =====
-- The two guards behind the router: for the status and for the headers (src/lib/server.cpp).
use fcgiserver.Prelude.{
  ◌≡◌, ◌≢◌, ◌∙◌, sym, ap, refl, true, false, List, [], ◌++◌, Option, none, some, Bytes, concat, All,
  IsByte, if◌then◌else◌, ◌>>=◌, Bool-cases, inl, inr,
}
use fcgiserver.Strings.{is_empty}
use fcgiserver.Logger.{LogLevel}
use fcgiserver.Request.Response.{
  CgiData, HeaderMap, find_header, Response, header, status_symbol, write_all,
}
use fcgiserver.Request.Response.Sending.{response_head}
use fcgiserver.Request.State.{Request}
use fcgiserver.Request.State.Texts.{HoldsBytes, IsText, find_header-IsByte}
use fcgiserver.Router.Context.{RouteResult}
use fcgiserver.Server.Answer.{status_code, ensure_status, ensure_headers}
use fcgiserver.Server.Answer.Settled.{HasStatus, not_empty, sent_status, with_code-Settled}
use fcgiserver.Server.Answer.Status.{
  with_code, closing_headers, closing_text, status-closing_headers, closing_headers-IsText,
  ensure_status-with_code, ensure_headers-Closed,
}

module _ {D L : Type 0} (log_message : LogLevel → Bytes → L → L) where
  ensure_status_kept :
      (result : RouteResult) (r : Request D L)
      → is_empty (header status_symbol r.response) ≡ false
      → ensure_status log_message result r ≡ some r
  unfolding ensure_status
  ensure_status_kept result r shown = rw shown

  ensure_headers_kept :
      (cgi : CgiData D) (iterate : HeaderMap → HeaderMap) (r : Request D L)
      → r.response.headers_sent ≡ true
      → ensure_headers log_message cgi iterate r ≡ some r
  unfolding ensure_headers
  ensure_headers_kept cgi iterate r sent = rw (sent, ensure_headers)

  module _ (cgi : CgiData D) (iterate : HeaderMap → HeaderMap) where
    -- A request after both guards.
    pub record Guarded (result : RouteResult) (r : Request D L) (o : Option (Request D L))
        : Type 0 where
      pub next : Response D L
      pub returns : o ≡ some (record r { response = next })
      pub sent : next.headers_sent ≡ true
      pub logger : next.logger ≡ r.response.logger
      pub texts : IsText next.headers
      pub given :
          find_header status_symbol next.headers ≡ some (sent_status result r.response.headers)
      pub body : List Bytes
      pub spells : concat body ≡ (
          if r.response.headers_sent
          then []
          else closing_text (with_code (status_code result) r.response.headers))
      pub wrote : next.cgi_data ≡ (
          if r.response.headers_sent
          then r.response.cgi_data
          else write_all cgi
              (response_head r.symbols iterate
                  (closing_headers (with_code (status_code result) r.response.headers))
                ++ body)
              r.response.cgi_data)

    unsent-Guarded :
        (result : RouteResult) (r : Request D L)
        → HoldsBytes r
        → HasStatus r.response.headers
        → r.response.headers_sent ≡ false
        → Guarded result r
            (ensure_status log_message result r >>= ensure_headers log_message cgi iterate)
    unsent-Guarded result r h shows unsent =
        let headers = with_code (status_code result) r.response.headers in
        let s = with_code-Settled result r.response.headers h.headers shows in
        let r' : Request D L = record r { response = record r.response { headers = headers } } in
        let bytes : All IsByte (sent_status result r.response.headers) =
          find_header-IsByte status_symbol headers s.texts in
        let c =
          ensure_headers-Closed log_message cgi iterate r' (sent_status result r.response.headers)
            unsent s.given bytes s.shown in
        rw (ensure_status-with_code log_message result r unsent) (record {
          next = c.next;
          returns = c.returns;
          sent = c.sent;
          logger = c.logger;
          texts = rw c.headers (closing_headers-IsText headers s.texts);
          given = rw c.headers (status-closing_headers headers s.given);
          body = c.body;
          spells = rw unsent c.spells;
          wrote = rw unsent c.wrote;
        })

    sent-Guarded :
        (result : RouteResult) (r : Request D L)
        → HoldsBytes r
        → HasStatus r.response.headers
        → r.response.headers_sent ≡ true
        → find_header status_symbol r.response.headers ≢ none
        → Guarded result r
            (ensure_status log_message result r >>= ensure_headers log_message cgi iterate)
    sent-Guarded result r h shows sent there =
        let shown = not_empty r.response.headers shows there in
        let s = with_code-Settled result r.response.headers h.headers shows in
        let same : with_code (status_code result) r.response.headers ≡ r.response.headers =
          rw shown in
        rw (ensure_status_kept result r shown, ensure_headers_kept cgi iterate r sent)
          (record {
            next = r.response;
            returns = refl;
            sent = sent;
            logger = refl;
            texts = h.headers;
            given = ap (find_header status_symbol) (sym same) ∙ s.given;
            body = [];
            spells = rw sent;
            wrote = rw sent;
          })

    pub guards-Guarded :
        (result : RouteResult) (r : Request D L)
        → HoldsBytes r
        → HasStatus r.response.headers
        → (r.response.headers_sent ≡ true → find_header status_symbol r.response.headers ≢ none)
        → Guarded result r
            (ensure_status log_message result r >>= ensure_headers log_message cgi iterate)
    guards-Guarded result r h shows there = elim (Bool-cases r.response.headers_sent) [
      | inl sent ↦ sent-Guarded result r h shows sent (there sent)
      | inr unsent ↦ unsent-Guarded result r h shows unsent
    ]
