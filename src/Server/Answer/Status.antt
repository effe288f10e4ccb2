-- ===== src/Server/Answer/Status.antt =====
-- How a request is answered that the router has left open (src/lib/server.cpp).
use fcgiserver.Prelude.{
  ℕ, ◌≡◌, ◌≢◌, ◌∙◌, refl, Bool, true, false, List, [], ◌++◌, Option, none, some, Bytes, codes,
  concat, append-nil, All, IsByte, arith, if◌then◌else◌, ◌>>=◌, Bool-cases, inl, inr,
}
use fcgiserver.Strings.{is_empty}
use fcgiserver.Digits.{print}
use fcgiserver.Formatter.{utf8}
use fcgiserver.Logger.{LogLevel}
use fcgiserver.Logger.Stream.{recoded}
use fcgiserver.Request.Env.{to_format}
use fcgiserver.Request.Parse.{ContentEncoding}
use fcgiserver.Request.Response.{
  CgiData, HeaderMap, find_header, emplace, or_empty, Response, header, status_symbol,
  content_type_symbol, set_header, set_http_status, set_content_type, set_content_type_as,
  send_headers, with_status, write_all,
}
use fcgiserver.Request.Response.Headers.{first, find_header-emplace}
use fcgiserver.Request.Response.Sending.{response_head}
use fcgiserver.Request.Stream.{stream_text}
use fcgiserver.Request.Stream.Bodies.{stream_text-Streams}
use fcgiserver.Request.State.{Request}
use fcgiserver.Request.State.Texts.{IsText, emplace-IsText}
use fcgiserver.Router.Context.{RouteResult}
use fcgiserver.Server.Answer.{status_code, change_response, ensure_status, ensure_headers}

-- The headers once the status, and the type, are given.
abbrev pub with_code : ℕ → HeaderMap → HeaderMap
with_code code headers =
    if is_empty (or_empty (find_header status_symbol headers))
    then emplace status_symbol (print 10 code) headers
    else headers

abbrev pub with_type : HeaderMap → HeaderMap
with_type headers = emplace content_type_symbol (codes "text/plain") headers

module _ {D L : Type 0} (log_message : LogLevel → Bytes → L → L) where
  pub ensure_status-with_code :
      (result : RouteResult) (r : Request D L)
      → r.response.headers_sent ≡ false
      → ensure_status log_message result r
        ≡ some (record r {
          response = record r.response {
            headers = with_code (status_code result) r.response.headers;
          };
        })
  unfolding ensure_status set_http_status set_header
  ensure_status-with_code result r unsent =
      elim (Bool-cases (is_empty (or_empty (find_header status_symbol r.response.headers)))) [
        | inl missing ↦ rw (missing, unsent)
        | inr there ↦ rw there
      ]

  set_content_type-with_type :
      (r : Request D L)
      → r.response.headers_sent ≡ false
      → change_response
          (λ s method uri. set_content_type log_message s method uri (codes "text/plain"))
          r
        ≡ some (record r {
          response = record r.response {
            headers = with_type r.response.headers;
            encoding = some ContentEncoding.utf8;
          };
        })
  unfolding set_content_type set_content_type_as set_header fcgiserver.Request.Parse.detect_encoding
  set_content_type-with_type r unsent = rw unsent

-- Whether the type is given.
abbrev pub lacks_type : HeaderMap → Bool
lacks_type headers = is_empty (or_empty (find_header content_type_symbol headers))

-- The headers that are sent for those that the router left, with a status.
abbrev pub closing_headers : HeaderMap → HeaderMap
closing_headers headers = if lacks_type headers then with_type headers else headers

-- The text behind the header lines.
abbrev pub closing_text : HeaderMap → Bytes
closing_text headers =
    if lacks_type headers then recoded (or_empty (find_header status_symbol headers)) else []

first_left : (a : Option Bytes) → first a none ≡ a
first_left none = refl
first_left (some text) = refl

status-with_type :
    (headers : HeaderMap)
    → find_header status_symbol (with_type headers) ≡ find_header status_symbol headers
unfolding find_header
status-with_type headers =
    find_header-emplace content_type_symbol status_symbol (codes "text/plain") headers
    ∙ first_left (find_header status_symbol headers)

status-with_status :
    (headers : HeaderMap) {status : Bytes}
    → find_header status_symbol headers ≡ some status
    → find_header status_symbol (with_status headers) ≡ some status
status-with_status headers h =
    find_header-emplace status_symbol status_symbol (codes "200") headers ∙ rw h

pub status-closing_headers :
    (headers : HeaderMap) {status : Bytes}
    → find_header status_symbol headers ≡ some status
    → find_header status_symbol (with_status (closing_headers headers)) ≡ some status
status-closing_headers headers given = elim (Bool-cases (lacks_type headers)) [
  | inl untyped ↦
      rw untyped (status-with_status (with_type headers) (status-with_type headers ∙ given))
  | inr is_typed ↦ rw is_typed (status-with_status headers given)
]

pub closing_headers-IsText :
    (headers : HeaderMap) → IsText headers → IsText (with_status (closing_headers headers))
closing_headers-IsText headers texts =
    emplace-IsText status_symbol (codes "200") (closing_headers headers) (ground arith)
      (elim (Bool-cases (lacks_type headers)) [
        | inl untyped ↦
            rw untyped
              (emplace-IsText content_type_symbol (codes "text/plain") headers (ground arith) texts)
        | inr is_typed ↦ rw is_typed texts
      ])

-- The request after `ensure_headers`: the headers are sent, with its status, and behind them the
-- status if there was no type.
pub record Closed {D L : Type 0} (cgi : CgiData D) (iterate : HeaderMap → HeaderMap)
    (r : Request D L) (result : Option (Request D L)) : Type 0 where
  pub next : Response D L
  pub returns : result ≡ some (record r { response = next })
  pub sent : next.headers_sent ≡ true
  pub headers : next.headers ≡ with_status (closing_headers r.response.headers)
  pub logger : next.logger ≡ r.response.logger
  pub body : List Bytes
  pub spells : concat body ≡ closing_text r.response.headers
  pub wrote :
      next.cgi_data
      ≡ write_all cgi
          (response_head r.symbols iterate (closing_headers r.response.headers) ++ body)
          r.response.cgi_data

module _ {D L : Type 0} (log_message : LogLevel → Bytes → L → L) (cgi : CgiData D)
    (iterate : HeaderMap → HeaderMap) where
  -- The response with the type that `thread_function` gives it.
  abbrev typed : Request D L → Response D L
  typed r = record r.response {
    headers = with_type r.response.headers;
    encoding = some ContentEncoding.utf8;
  }

  ensure_headers_page :
      (r : Request D L)
      → r.response.headers_sent ≡ false
      → lacks_type r.response.headers ≡ true
      → ensure_headers log_message cgi iterate r ≡ (
          stream_text r.symbols cgi iterate utf8 (header status_symbol (typed r)) (typed r)
          >>= λ response. some (record r { response = response }))
  unfolding ensure_headers set_content_type set_content_type_as set_header to_format
      fcgiserver.Request.Parse.detect_encoding
  ensure_headers_page r unsent untyped = rw (unsent, untyped)

  page-Closed :
      (r : Request D L) (status : Bytes)
      → r.response.headers_sent ≡ false
      → lacks_type r.response.headers ≡ true
      → find_header status_symbol r.response.headers ≡ some status
      → All IsByte status
      → recoded status ≢ []
      → Closed cgi iterate r (ensure_headers log_message cgi iterate r)
  page-Closed r status unsent untyped given bytes shown =
      let given' : find_header status_symbol (with_type r.response.headers) ≡ some status =
        status-with_type r.response.headers ∙ given in
      let st = stream_text-Streams cgi iterate r.symbols status (typed r) unsent bytes shown in
      rw (ensure_headers_page r unsent untyped, given', st.returns)
        (record {
          next = st.next;
          returns = refl;
          sent = st.sent;
          headers = st.headers ∙ rw untyped;
          logger = st.logger;
          body = st.body;
          spells = st.spells ∙ rw (untyped, given);
          wrote = st.wrote ∙ rw untyped;
        })

  typed-Closed :
      (r : Request D L) (status : Bytes)
      → r.response.headers_sent ≡ false
      → lacks_type r.response.headers ≡ false
      → find_header status_symbol r.response.headers ≡ some status
      → Closed cgi iterate r (ensure_headers log_message cgi iterate r)
  unfolding ensure_headers send_headers
  typed-Closed r status unsent is_typed given =
      rw (unsent, is_typed, ensure_headers, send_headers)
        (record {
          next = send_headers r.symbols cgi iterate r.response;
          returns = rw unsent;
          sent = rw (unsent, send_headers) refl;
          headers = rw (unsent, send_headers, is_typed);
          logger = rw (unsent, send_headers);
          body = [];
          spells = rw is_typed;
          wrote =
              rw
                (unsent, is_typed, append-nil (response_head r.symbols iterate r.response.headers));
        })

  -- Headers that were not sent are sent.
  pub ensure_headers-Closed :
      (r : Request D L) (status : Bytes)
      → r.response.headers_sent ≡ false
      → find_header status_symbol r.response.headers ≡ some status
      → All IsByte status
      → recoded status ≢ []
      → Closed cgi iterate r (ensure_headers log_message cgi iterate r)
  ensure_headers-Closed r status unsent given bytes shown =
      elim (Bool-cases (lacks_type r.response.headers)) [
        | inl untyped ↦ page-Closed r status unsent untyped given bytes shown
        | inr is_typed ↦ typed-Closed r status unsent is_typed given
      ]
