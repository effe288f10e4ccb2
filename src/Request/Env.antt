-- ===== src/Request/Env.antt =====
-- src/lib/request.cpp: the environment of a request, its method and its encodings, and
-- src/lib/request_stream.cpp: what a stream makes of HTML content.
use fcgiserver.Prelude.{
  Bool, List, [], ◌∷◌, Option, none, some, Bytes, codes, equal, ◌==◌, if◌then◌else◌,
}
use fcgiserver.Strings.{find, before, after}
use fcgiserver.Symbols.{Symbol, SymbolServer, symbol, maybe}
use fcgiserver.Formatter.{GenericFormat, html_content, format_text}
use fcgiserver.Request.Parse.{ContentEncoding}
use fcgiserver.Request.Response.{find_header, emplace, or_empty}
use fcgiserver.Router.Context.{
  RequestMethod, get, head, post, put, delete, connect, options, trace, patch, unknown, other,
}

abbrev pub EnvMap : Type 0
EnvMap = List (Symbol × Bytes)

-- The loop of `env_map`; `emplace` keeps the first value of a variable.
unfoldable pub env_loop : List Bytes → SymbolServer → EnvMap → EnvMap × SymbolServer
env_loop [] s env = (env, s)
env_loop (line ∷ lines) s env = elim (find b'=' line) [
  | none ↦ env_loop lines s env
  | some split_pos ↦
      let (key, s') = symbol (before (some split_pos) line) s in
      env_loop lines s' (emplace key (after (some split_pos) line) env)
]

-- `env_map`, from the lines of `cgi_data.env()`, if the map is still empty.
unfoldable pub env_map : List Bytes → SymbolServer → EnvMap → EnvMap × SymbolServer
env_map lines s [] = env_loop lines s []
env_map lines s (entry ∷ env) = (entry ∷ env, s)

-- `Request::env`
unfoldable pub env_value : Symbol → EnvMap → Bytes
env_value key env = or_empty (find_header key env)

-- The symbols from 16 to 24 are GET, PUT, POST, HEAD, PATCH, TRACE, DELETE, CONNECT and OPTIONS.
unfoldable pub resolve_method : Bytes → SymbolServer → RequestMethod
resolve_method method s =
    let sym = maybe method s in
    if sym == 16
    then get
    else if sym == 17
    then put
    else if sym == 18
    then post
    else if sym == 19
    then head
    else if sym == 20
    then patch
    else if sym == 21
    then trace
    else if sym == 22
    then delete
    else if sym == 23
    then connect
    else if sym == 24
    then options
    else other

-- `request_method`, from the value of the variable.
unfoldable pub method_of : Bytes → SymbolServer → RequestMethod
method_of [] s = unknown
method_of (c ∷ value) s = resolve_method (c ∷ value) s

-- `do_not_track`, from the value of the variable.
unfoldable pub is_do_not_track : Bytes → Bool
is_do_not_track value = equal value (codes "1")

unfoldable pub to_format : ContentEncoding → GenericFormat
to_format ContentEncoding.verbatim = GenericFormat.verbatim
to_format ContentEncoding.utf8 = GenericFormat.utf8
to_format ContentEncoding.html = GenericFormat.html

-- `RequestStream::operator<< (HTMLContent const&)`: in the format HTML the content is escaped as
-- HTML content, and the format is HTML again afterwards.
unfoldable pub stream_content : GenericFormat → Bytes → Option (List Bytes)
stream_content GenericFormat.html content = format_text html_content content
stream_content format content = format_text format content
