-- ===== src/Request/Stream.antt =====
-- src/lib/request_stream.cpp, and `write_stream` and `error_stream` of src/lib/request.cpp: texts that
-- are formatted and handed to `write` or `error` of the request, string by string.
pub mod Bodies
use mathlib.Core.Option.{map}
use fcgiserver.Prelude.{List, [], ◌∷◌, Option, none, some, Bytes, ◌>>=◌}
use fcgiserver.Symbols.{SymbolServer}
use fcgiserver.Formatter.{GenericFormat, utf8, format_text}
use fcgiserver.Request.Env.{to_format, stream_content}
use fcgiserver.Request.Response.{CgiData, HeaderMap, Response, write, write_error}

module _ {D L : Type 0} (s : SymbolServer) (cgi : CgiData D) (iterate : HeaderMap → HeaderMap) where
  -- `real_append` on the channel `write`, for each string of a text.
  abbrev pub append_strings : List Bytes → Response D L → Response D L
  append_strings [] r = r
  append_strings (string ∷ strings) r = append_strings strings (write s cgi iterate string r).1

  -- `real_append` on the channel `error`
  abbrev pub append_errors : List Bytes → Response D L → Response D L
  append_errors [] r = r
  append_errors (string ∷ strings) r = append_errors strings (write_error s cgi iterate string r).1

  -- `operator<<` of a text on a stream in the format
  unfoldable pub stream_text : GenericFormat → Bytes → Response D L → Option (Response D L)
  stream_text format text r = format_text format text >>= λ strings. some (append_strings strings r)

  -- `operator<<` of HTML content
  unfoldable pub stream_html : GenericFormat → Bytes → Response D L → Option (Response D L)
  stream_html format content r =
      stream_content format content >>= λ strings. some (append_strings strings r)

  -- `error_stream() << text`
  unfoldable pub stream_error : Bytes → Response D L → Option (Response D L)
  stream_error text r = format_text utf8 text >>= λ strings. some (append_errors strings r)

-- The format of `write_stream()`; `none` is an encoding that was never set.
abbrev pub stream_format : {D L : Type 0} → Response D L → Option GenericFormat
stream_format r = map to_format r.encoding
