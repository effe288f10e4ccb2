-- ===== src/Request/Access.antt =====
-- src/lib/request.h and request.cpp: the functions that read one variable or one header, and those
-- that set a number as a header or the encoding.
use fcgiserver.Prelude.{Bool, Option, some, Bytes}
use fcgiserver.Prelude.Int.{ℤ}
use fcgiserver.Formatter.Numbers.{print_int}
use fcgiserver.Logger.{LogLevel}
use fcgiserver.Symbols.{Symbol, SymbolServer}
use fcgiserver.Request.Parse.{ContentEncoding}
use fcgiserver.Request.Response.{
  HeaderMap, Response, header, set_header, status_symbol, content_type_symbol,
}
use fcgiserver.Request.State.{Request, env, remote_port_symbol, do_not_track_symbol}

-- More symbols of symbols.cpp.
abbrev pub request_content_type_symbol : Symbol
request_content_type_symbol = 4

abbrev pub request_content_length_symbol : Symbol
request_content_length_symbol = 5

abbrev pub request_scheme_symbol : Symbol
request_scheme_symbol = 7

abbrev pub script_name_symbol : Symbol
script_name_symbol = 9

abbrev pub path_info_symbol : Symbol
path_info_symbol = 11

abbrev pub user_agent_symbol : Symbol
user_agent_symbol = 14

module _ {D L : Type 0} where
  abbrev pub request_content_type : Request D L → Bytes × Request D L
  request_content_type = env request_content_type_symbol

  abbrev pub request_content_length : Request D L → Bytes × Request D L
  request_content_length = env request_content_length_symbol

  abbrev pub request_scheme : Request D L → Bytes × Request D L
  request_scheme = env request_scheme_symbol

  abbrev pub script_name : Request D L → Bytes × Request D L
  script_name = env script_name_symbol

  abbrev pub path_info : Request D L → Bytes × Request D L
  path_info = env path_info_symbol

  abbrev pub remote_port_string : Request D L → Bytes × Request D L
  remote_port_string = env remote_port_symbol

  abbrev pub user_agent : Request D L → Bytes × Request D L
  user_agent = env user_agent_symbol

  abbrev pub do_not_track_string : Request D L → Bytes × Request D L
  do_not_track_string = env do_not_track_symbol

  abbrev pub http_status : Response D L → Bytes
  http_status = header status_symbol

  abbrev pub content_type : Response D L → Bytes
  content_type = header content_type_symbol

  -- `Request::headers`
  abbrev pub all_headers : Response D L → HeaderMap
  all_headers r = r.headers

  -- `Request::headers_sent`
  abbrev pub are_headers_sent : Response D L → Bool
  are_headers_sent r = r.headers_sent

  -- `Request::encoding`; `none` is a value that was never set.
  abbrev pub encoding_of : Response D L → Option ContentEncoding
  encoding_of r = r.encoding

  unfoldable pub set_encoding : ContentEncoding → Response D L → Response D L
  set_encoding encoding r = record r { encoding = some encoding }

  -- `set_header(Symbol, int)`
  unfoldable pub set_header_int :
      (LogLevel → Bytes → L → L)
      → SymbolServer
      → Bytes
      → Bytes
      → Symbol
      → ℤ
      → Response D L
      → Option (Bool × Response D L)
  set_header_int log_message s method uri key value =
      set_header log_message s method uri key (print_int value)
