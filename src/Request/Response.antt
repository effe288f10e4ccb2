-- ===== src/Request/Response.antt =====
-- src/lib/request.cpp: the headers of a request, its output and its destructor. The data of the
-- server (src/lib/i_cgi_data.h) is a parameter, and so is the order in which the hash map of the
-- headers is walked. What the functions for the route and the query do is in Parse.
pub mod Sending
pub mod Headers
use mathlib.Core.Option.{Option, none, some}
use fcgiserver.Prelude.{
  ℕ, Bool, true, false, List, [], ◌∷◌, ◌++◌, Bytes, codes, length, ◌==◌, if◌then◌else◌, ◌>>=◌,
}
use fcgiserver.Prelude.Int.{ℤ}
use fcgiserver.Digits.{print}
use fcgiserver.Symbols.{Symbol, SymbolServer, resolve}
use fcgiserver.Logger.{LogLevel, error, log_stream}
use fcgiserver.Request.Parse.{ContentEncoding, detect_encoding}

-- `class ICgiData` without the environment, which a request reads once; D is the object's state. A
-- read is given the size of the buffer, and stores bytes.
pub record CgiData (D : Type 0) : Type 0 where
  pub read_data : ℕ → D → ℤ × Bytes × D
  pub write_data : Bytes → D → ℤ × D
  pub error_data : Bytes → D → ℤ × D
  pub flush_write_data : D → ℤ × D
  pub flush_error_data : D → ℤ × D

abbrev pub HeaderMap : Type 0
HeaderMap = List (Symbol × Bytes)

-- `headers.find(key)`
unfoldable pub find_header : Symbol → HeaderMap → Option Bytes
find_header key [] = none
find_header key ((k, value) ∷ headers) = if k == key then some value else find_header key headers

-- `headers.emplace(key, value)`: a header that is there stays.
unfoldable pub emplace : Symbol → Bytes → HeaderMap → HeaderMap
emplace key value [] = (key, value) ∷ []
emplace key value ((k, old) ∷ headers) =
    if k == key then (k, old) ∷ headers else (k, old) ∷ emplace key value headers

abbrev pub or_empty : Option Bytes → Bytes
or_empty none = []
or_empty (some value) = value

-- The symbols `Status`, `ContentLength` and `ContentType`.
abbrev pub status_symbol : Symbol
status_symbol = 1

abbrev pub content_length_symbol : Symbol
content_length_symbol = 2

abbrev pub content_type_symbol : Symbol
content_type_symbol = 3

-- `class RequestPrivate`, without what is read from the environment. `encoding` has no value until
-- it is set. The once-flag tells if the warning was given.
pub record Response (D : Type 0) (L : Type 0) : Type 0 where
  pub cgi_data : D
  pub logger : Option L
  pub headers : HeaderMap
  pub encoding : Option ContentEncoding
  pub headers_sent_warning : Bool
  pub headers_sent : Bool

abbrev pub new_response : {D L : Type 0} → D → Option L → Response D L
new_response icd lg = record {
  cgi_data = icd;
  logger = lg;
  headers = [];
  encoding = none;
  headers_sent_warning = false;
  headers_sent = false;
}

-- `Request::header`
abbrev pub header : {D L : Type 0} → Symbol → Response D L → Bytes
header key r = or_empty (find_header key r.headers)

-- What is streamed into the warning; its blank is a char, which is appended as it is.
abbrev pub warning_texts : Symbol → SymbolServer → Bytes → Bytes → List Bytes
warning_texts header s method uri =
    codes "Attempted to modify header \""
    ∷ resolve header s
    ∷ codes "\" after headers already sent - "
    ∷ method
    ∷ codes " "
    ∷ uri
    ∷ []

-- The message that the destructor writes.
abbrev pub no_data_message : Bytes
no_data_message = codes "Data processor did not return any data"

-- `send_headers` finds no status, and sets it.
abbrev pub with_status : HeaderMap → HeaderMap
with_status = emplace status_symbol (codes "200")

module _ {D : Type 0} (cgi : CgiData D) where
  -- A sequence of `cgi_data.write`, whose results nobody reads.
  abbrev pub write_all : List Bytes → D → D
  write_all [] d = d
  write_all (buffer ∷ buffers) d = write_all buffers (cgi.write_data buffer d).1

-- The writes of `send_headers`.
abbrev pub header_lines : SymbolServer → HeaderMap → List Bytes
header_lines s [] = codes "\r\n" ∷ []
header_lines s ((key, value) ∷ headers) =
    resolve key s ∷ codes ": " ∷ value ∷ codes "\r\n" ∷ header_lines s headers

module _ {D L : Type 0} (s : SymbolServer) (cgi : CgiData D) (iterate : HeaderMap → HeaderMap) where
  unfoldable pub send_headers : Response D L → Response D L
  send_headers r = if r.headers_sent then r else record r {
    headers = with_status r.headers;
    cgi_data = write_all cgi (header_lines s (iterate (with_status r.headers))) r.cgi_data;
    headers_sent = true;
  }

  unfoldable pub write : Bytes → Response D L → ℤ × Response D L
  write buffer r =
      let r' = send_headers r in
      let (written, d) = cgi.write_data buffer r'.cgi_data in (written, record r' { cgi_data = d })

  -- `Request::error`
  unfoldable pub write_error : Bytes → Response D L → ℤ × Response D L
  write_error buffer r =
      let (written, d) = cgi.error_data buffer r.cgi_data in (written, record r { cgi_data = d })

  unfoldable pub flush_write : Response D L → ℤ × Response D L
  flush_write r =
      let (result, d) = cgi.flush_write_data r.cgi_data in (result, record r { cgi_data = d })

  unfoldable pub flush_error : Response D L → ℤ × Response D L
  flush_error r =
      let (result, d) = cgi.flush_error_data r.cgi_data in (result, record r { cgi_data = d })

module _ {D L : Type 0} (log_message : LogLevel → Bytes → L → L) (s : SymbolServer)
    (method uri : Bytes) where
  abbrev pub warn : Symbol → Response D L → Option (Response D L)
  warn header r = do
    logger' ← log_stream log_message error (warning_texts header s method uri) r.logger
    some (record r { logger = logger'; headers_sent_warning = true })

  -- The method and the URI of the request stand in the warning.
  unfoldable pub set_header : Symbol → Bytes → Response D L → Option (Bool × Response D L)
  set_header key value r =
      if r.headers_sent
      then if r.headers_sent_warning
        then some (false, r)
        else (warn key r >>= λ r'. some (false, r'))
      else some (true, record r { headers = emplace key value r.headers })

  unfoldable pub set_http_status : ℕ → Response D L → Option (Bool × Response D L)
  set_http_status code = set_header status_symbol (print 10 code)

  abbrev set_encoding_if : ContentEncoding → Bool × Response D L → Bool × Response D L
  set_encoding_if encoding (true, r) = (true, record r { encoding = some encoding })
  set_encoding_if encoding (false, r) = (false, r)

  -- `set_content_type` with an encoding
  unfoldable pub set_content_type_as :
      Bytes → ContentEncoding → Response D L → Option (Bool × Response D L)
  set_content_type_as content_type encoding r =
      set_header content_type_symbol content_type r >>= λ a. some (set_encoding_if encoding a)

  unfoldable pub set_content_type : Bytes → Response D L → Option (Bool × Response D L)
  set_content_type content_type = set_content_type_as content_type (detect_encoding content_type)

  module _ (cgi : CgiData D) (iterate : HeaderMap → HeaderMap) where
    -- `~Request`: what the data of the server is in the end.
    unfoldable pub destroy : Response D L → Option D
    destroy r = if r.headers_sent then some r.cgi_data else do
      (_, r₁) ← set_http_status 500 r
      (_, r₂) ← set_content_type (codes "text/plain") r₁
      (_, r₃) ← set_header content_length_symbol (print 10 (length no_data_message)) r₂
      some (write s cgi iterate no_data_message r₃).1.cgi_data
