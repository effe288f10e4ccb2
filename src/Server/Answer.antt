-- ===== src/Server/Answer.antt =====
-- src/lib/server.cpp: what `thread_function` does with one accepted request, from the call of the
-- router to the end of the request. `finish` is the end of the data (`~FastCgiData`).
pub mod Report
pub mod Status
pub mod Settled
pub mod Guards
pub mod Closing
pub mod Codes
use fcgiserver.Prelude.{
  ℕ, Bool, true, false, ◌&&◌, not, List, [], ◌∷◌, Option, none, some, Bytes, codes, if◌then◌else◌,
  ◌>>=◌,
}
use fcgiserver.Strings.{is_empty}
use fcgiserver.Digits.{print}
use fcgiserver.Symbols.{SymbolServer}
use fcgiserver.Logger.{LogLevel, error, log_stream}
use fcgiserver.LogCallback.{log_request}
use fcgiserver.RequestContext.{RequestContext}
use fcgiserver.Request.Env.{env_value}
use fcgiserver.Request.Response.{
  CgiData, HeaderMap, Response, header, status_symbol, content_type_symbol, set_http_status,
  set_content_type, send_headers, destroy,
}
use fcgiserver.Request.State.{
  Request, load_env, request_method_string, document_uri, request_method_symbol,
  document_uri_symbol,
}
use fcgiserver.Request.Stream.{stream_format, stream_text}
use fcgiserver.Router.Context.{RouteResult, handled, not_found, invalid_method, internal_error}

-- How a call of `IRouter::handle_request` ends: it returns, it throws a std::exception with a text,
-- or it throws something else.
pub data Outcome : Type 0 where
  returns : RouteResult → Outcome
  throws : Bytes → Outcome
  throws_unknown : Outcome

-- The router of a server; `none` is undefined behaviour.
abbrev pub Handler : Type 0 → Type 0 → Type 0 → Type 0 → Type 0
Handler D L U V = RequestContext D L U V → Option (Outcome × RequestContext D L U V)

-- The codes of the `switch`.
unfoldable pub status_code : RouteResult → ℕ
status_code handled = 200
status_code not_found = 404
status_code invalid_method = 405
status_code internal_error = 500

-- The value of `route_result` behind the `try`.
abbrev pub route_result : Outcome → RouteResult
route_result (returns result) = result
route_result (throws _) = internal_error
route_result throws_unknown = internal_error

-- A call that may set a header. Only where it warns, it reads the environment.
abbrev pub change_response :
    {D L : Type 0}
    → (SymbolServer → Bytes → Bytes → Response D L → Option (Bool × Response D L))
    → Request D L
    → Option (Request D L)
change_response change r =
    let warns = r.response.headers_sent && not r.response.headers_sent_warning in
    let r' = if warns then load_env r else r in
    change r'.symbols (env_value request_method_symbol r'.variables)
      (env_value document_uri_symbol r'.variables) r'.response
    >>= λ p. some (record r' { response = p.1 })

-- The texts of the two messages on an exception. The number and the blank are appended as they are,
-- which ASCII is anyway.
abbrev pub exception_texts : ℕ → Bytes → Bytes → Outcome → Option (List Bytes)
exception_texts id method uri (returns _) = none
exception_texts id method uri (throws what) = some (
    codes "Uncaught exception in thread "
    ∷ print 10 id
    ∷ codes ": "
    ∷ what
    ∷ codes " - "
    ∷ method
    ∷ codes " "
    ∷ uri
    ∷ [])
exception_texts id method uri throws_unknown = some (
    codes "Uncaught unknown exception in thread "
    ∷ print 10 id
    ∷ codes " - "
    ∷ method
    ∷ codes " "
    ∷ uri
    ∷ [])

module _ {D L : Type 0} (log_message : LogLevel → Bytes → L → L) where
  -- The two `catch` clauses.
  unfoldable pub report : ℕ → Outcome → Request D L → Option (Request D L)
  report id (returns result) r = some r
  report id outcome r =
      let (method, r₁) = request_method_string r in
      let (uri, r₂) = document_uri r₁ in
      exception_texts id method uri outcome >>= λ texts.
      log_stream log_message error texts r₂.response.logger >>= λ logger.
      some (record r₂ { response = record r₂.response { logger = logger } })

  -- `if (request.http_status().empty()) ...`
  unfoldable pub ensure_status : RouteResult → Request D L → Option (Request D L)
  ensure_status result r =
      if is_empty (header status_symbol r.response)
      then change_response
          (λ s method uri. set_http_status log_message s method uri (status_code result)) r
      else some r

  -- `if (auto * cb = m_private->logger.log_callback(); cb) cb->log_request(request);`
  abbrev pub log_answer : Option L → Request D L → Option (Request D L)
  log_answer none r = some r
  log_answer (some callback) r = log_request log_message r callback >>= λ p.
      some (record p.1 { response = record p.1.response { logger = some p.0 } })

  module _ (cgi : CgiData D) (iterate : HeaderMap → HeaderMap) where
    -- `request.write_stream() << request.http_status()`; the encoding has been set before.
    abbrev pub stream_status : Request D L → Option (Request D L)
    stream_status r = stream_format r.response >>= λ format.
        stream_text r.symbols cgi iterate format (header status_symbol r.response) r.response
        >>= λ response. some (record r { response = response })

    -- `if (!request.headers_sent()) ...`
    unfoldable pub ensure_headers : Request D L → Option (Request D L)
    ensure_headers r =
        if r.response.headers_sent
        then some r
        else if is_empty (header content_type_symbol r.response)
        then (change_response
              (λ s method uri. set_content_type log_message s method uri (codes "text/plain")) r
            >>= stream_status)
        else some (record r { response = send_headers r.symbols cgi iterate r.response })

    unfoldable pub answer : ℕ → Outcome → Request D L → Option (Request D L)
    answer id outcome r = do
      r₁ ← report id outcome r
      r₂ ← ensure_status (route_result outcome) r₁
      r₃ ← ensure_headers r₂
      log_answer r₃.response.logger r₃
