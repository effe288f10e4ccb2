-- ===== src/Server/Answer/Closing.antt =====
-- Every request that a thread serves is answered (src/lib/server.cpp).
use mathlib.Core.Option.{map}
use fcgiserver.Prelude.{
  ℕ, ◌≡◌, ◌≢◌, ◌∙◌, ap, refl, true, List, [], ◌++◌, Option, none, some, Bytes, concat,
  if◌then◌else◌, ◌>>=◌,
}
use fcgiserver.Logger.{LogLevel, debug}
use fcgiserver.LogCallback.Line.{line_text, log_request-line_text}
use fcgiserver.Request.Env.{env_value}
use fcgiserver.Request.Parse.{parse_port}
use fcgiserver.Request.Response.{
  CgiData, HeaderMap, find_header, or_empty, Response, header, status_symbol, write_all,
}
use fcgiserver.Request.Response.Sending.{response_head}
use fcgiserver.Request.State.{
  Request, load_env, remote_addr_symbol, remote_port_symbol, request_method_symbol,
  document_uri_symbol,
}
use fcgiserver.Request.State.Texts.{HoldsBytes, response-HoldsBytes}
use fcgiserver.Router.Context.{RouteResult, internal_error}
use fcgiserver.Server.Answer.{
  Outcome, returns, throws, throws_unknown, status_code, route_result, ensure_status,
  ensure_headers, log_answer, answer,
}
use fcgiserver.Server.Answer.Report.{HasBytes, reported, report-reported, reported-HoldsBytes}
use fcgiserver.Server.Answer.Settled.{HasStatus, sent_status}
use fcgiserver.Server.Answer.Guards.{Guarded, guards-Guarded}
use fcgiserver.Server.Answer.Status.{with_code, closing_headers, closing_text}

-- What is logged of a request with a status.
abbrev pub logged_line : {D L : Type 0} → Request D L → Bytes → Bytes
logged_line r status =
    let env = (load_env r).variables in
    line_text (env_value remote_addr_symbol env) (parse_port (env_value remote_port_symbol env))
      status (env_value request_method_symbol env) (env_value document_uri_symbol env)

logged_line_response :
    {D L : Type 0} (r : Request D L) (response : Response D L) (status : Bytes)
    → logged_line (record r { response = response }) status ≡ logged_line r status
unfolding load_env
logged_line_response r response status = refl

bind_assoc :
    {A B C : Type 0} (o : Option A) (f : A → Option B) (g : B → Option C)
    → (o >>= f >>= g) ≡ (o >>= λ a. f a >>= g)
bind_assoc none f g = refl
bind_assoc (some a) f g = refl

-- How a request ends, from the result of the router and the request after the `try`.
pub record Answered {D L : Type 0} (log_message : LogLevel → Bytes → L → L) (cgi : CgiData D)
    (iterate : HeaderMap → HeaderMap) (result : RouteResult) (r : Request D L)
    (o : Option (Request D L)) : Type 0 where
  pub next : Request D L
  pub returns : o ≡ some next
  pub sent : next.response.headers_sent ≡ true
  pub status : header status_symbol next.response ≡ sent_status result r.response.headers
  pub logged :
      next.response.logger
      ≡ map
          (log_message debug (logged_line r (sent_status result r.response.headers)))
          r.response.logger
  pub body : List Bytes
  pub spells : concat body ≡ (
      if r.response.headers_sent
      then []
      else closing_text (with_code (status_code result) r.response.headers))
  pub wrote : next.response.cgi_data ≡ (
      if r.response.headers_sent
      then r.response.cgi_data
      else write_all cgi
          (response_head r.symbols iterate
              (closing_headers (with_code (status_code result) r.response.headers))
            ++ body)
          r.response.cgi_data)

module _ {D L : Type 0} (log_message : LogLevel → Bytes → L → L) where
  -- The callback of the logger, if there is one, gets the line.
  log_answer-logged_line :
      (logger : Option L) (r : Request D L)
      → r.response.logger ≡ logger
      → HoldsBytes r
      → (next : Request D L) × (log_answer log_message logger r ≡ some next)
        × (next.response ≡ record r.response {
          logger = map (log_message debug (logged_line r (header status_symbol r.response))) logger;
        })
  log_answer-logged_line none r silent h =
      (r, refl, ap (λ l. record r.response { logger = l }) silent)
  log_answer-logged_line (some callback) r there h =
      let line = logged_line r (header status_symbol r.response) in
      let r' = load_env r in
      (
        record r' {
          response = record r'.response { logger = some (log_message debug line callback) };
        },
        rw (log_request-line_text log_message r callback h),
        unfold load_env in refl,
      )

  module _ (cgi : CgiData D) (iterate : HeaderMap → HeaderMap) where
    -- The guards, and then the log.
    settle-Answered :
        (result : RouteResult) (r : Request D L) (o : Option (Request D L))
        → HoldsBytes r
        → Guarded log_message cgi iterate result r o
        → Answered log_message cgi iterate result r
            (o >>= λ r'. log_answer log_message r'.response.logger r')
    settle-Answered result r o h g =
        let r' : Request D L = record r { response = g.next } in
        let (next, done, same) =
          log_answer-logged_line g.next.logger r' refl (response-HoldsBytes r g.next h g.texts) in
        let status : header status_symbol g.next ≡ sent_status result r.response.headers =
          ap or_empty g.given in
        rw g.returns (record {
          next = next;
          returns = done;
          sent = ap (λ (x : Response D L). x.headers_sent) same ∙ g.sent;
          status = ap (λ (x : Response D L). header status_symbol x) same ∙ status;
          logged =
              ap (λ (x : Response D L). x.logger) same
              ∙ ap (λ l. map (log_message debug l) g.next.logger)
                  (logged_line_response r g.next (header status_symbol g.next)
                    ∙ ap (logged_line r) status)
              ∙ ap (map (log_message debug (logged_line r (sent_status result r.response.headers))))
                  g.logger;
          body = g.body;
          spells = g.spells;
          wrote = ap (λ (x : Response D L). x.cgi_data) same ∙ g.wrote;
        })

    guarded-Answered :
        (result : RouteResult) (r : Request D L)
        → HoldsBytes r
        → HasStatus r.response.headers
        → (r.response.headers_sent ≡ true → find_header status_symbol r.response.headers ≢ none)
        → Answered log_message cgi iterate result r (
            ensure_status log_message result r >>= λ r₂.
            ensure_headers log_message cgi iterate r₂ >>= λ r₃.
            log_answer log_message r₃.response.logger r₃)
    guarded-Answered result r h shows there =
        rw
          (← bind_assoc (ensure_status log_message result r)
            (ensure_headers log_message cgi iterate)
            (λ r₃. log_answer log_message r₃.response.logger r₃))
          (settle-Answered result r _ h
            (guards-Guarded log_message cgi iterate result r h shows there))

    -- Every request is answered, whether the router returned or threw, if what it holds and the text
    -- of the exception are bytes, its status, where the router set one, has a glyph, and it has a
    -- status where its headers were sent. Headers that were sent stay as they are;
    -- else they are sent now, with the router's status or the code of its result, and with the type
    -- text/plain and the status behind them if there was no type. Then the request is logged.
    pub answer-Answered :
        (id : ℕ) (outcome : Outcome) (r : Request D L)
        → HoldsBytes r
        → HasBytes outcome
        → HasStatus r.response.headers
        → (r.response.headers_sent ≡ true → find_header status_symbol r.response.headers ≢ none)
        → Answered log_message cgi iterate
            (route_result outcome)
            (reported log_message id outcome r)
            (answer log_message cgi iterate id outcome r)
    unfolding answer
    answer-Answered id outcome r h b shows there =
        let h₁ = reported-HoldsBytes log_message id outcome r h in
        rw (report-reported log_message id outcome r h b) (
          elim outcome
              as (λ o.
                HoldsBytes (reported log_message id o r)
                → Answered log_message cgi iterate (route_result o) (reported log_message id o r) (
                    ensure_status log_message (route_result o) (reported log_message id o r)
                    >>= λ r₂. ensure_headers log_message cgi iterate r₂ >>= λ r₃.
                        log_answer log_message r₃.response.logger r₃)) [
                          | returns result ↦ λ k. guarded-Answered result r k shows there
                          | throws what ↦ λ k.
                              guarded-Answered internal_error
                                (reported log_message id (throws what) r) k shows there
                          | throws_unknown ↦ λ k.
                              guarded-Answered internal_error
                                (reported log_message id throws_unknown r) k shows there
                        ]
            h₁)
