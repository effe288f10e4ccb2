-- ===== src/LogCallback/Line.antt =====
-- The line that is logged for a request (src/lib/i_log_callback.cpp).
use fcgiserver.Prelude.{◌≡◌, ◌∙◌, refl, [], ◌++◌, some, Bytes, codes, All, IsByte, arith, ap}
use fcgiserver.Prelude.Int.{ℤ}
use fcgiserver.Formatter.{utf8}
use fcgiserver.Formatter.Numbers.{w32, IsSigned, print_int, format_signed-print_int}
use fcgiserver.Symbols.{Symbol}
use fcgiserver.Request.Parse.{parse_port}
use fcgiserver.Logger.{LogLevel, debug, line_formatter, append}
use fcgiserver.Logger.Stream.{recoded, append-recoded}
use fcgiserver.Request.Env.{env_value}
use fcgiserver.Request.Response.{header, status_symbol}
use fcgiserver.Request.State.{
  Request, load_env, remote_port, remote_addr_symbol, remote_port_symbol, request_method_symbol,
  document_uri_symbol,
}
use fcgiserver.Request.State.Loading.{env-load_env, env_again}
use fcgiserver.Request.State.Texts.{
  HoldsBytes, env_value-IsByte, header-IsByte, parse_port-IsSigned,
}
use fcgiserver.LogCallback.{request_line, log_request}

-- The five parts, with what stands between them.
abbrev pub line_text : Bytes → ℤ → Bytes → Bytes → Bytes → Bytes
line_text addr port status method uri =
    (((((((recoded addr ++ codes ":") ++ print_int port) ++ codes " - ") ++ recoded status)
          ++ codes " - ")
        ++ recoded method)
      ++ codes " ")
    ++ recoded uri

dash_recoded : recoded (codes " - ") ≡ codes " - "
unfolding fcgiserver.Request.Codec.utf8_decode fcgiserver.Request.Codec.utf8_encode
    fcgiserver.Utils.utf8_to_32 fcgiserver.Utils.utf32_to_8
dash_recoded = refl

append-dash :
    (buffer : Bytes)
    → append (line_formatter buffer utf8) (codes " - ")
      ≡ some (line_formatter (buffer ++ codes " - ") utf8)
append-dash buffer =
    append-recoded buffer (codes " - ") (ground arith)
    ∙ ap (λ t. some (line_formatter (buffer ++ t) utf8)) dash_recoded

request_line-line_text :
    (addr : Bytes) (port : ℤ) (status method uri : Bytes)
    → All IsByte addr
    → IsSigned w32 port
    → All IsByte status
    → All IsByte method
    → All IsByte uri
    → request_line addr port status method uri ≡ some (line_text addr port status method uri)
unfolding request_line
request_line-line_text addr port status method uri a p s m u = rw (
  append-recoded [] addr a,
  format_signed-print_int w32 port p,
  append-dash ((recoded addr ++ codes ":") ++ print_int port),
  append-recoded _ status s,
  append-dash _,
  append-recoded _ method m,
  append-recoded _ uri u,
)

-- If what a request holds is bytes, it is logged as one debug message: the address, the port as a
-- number, the status, the method and the URI, each part of text as UTF-8. Of the request only its
-- environment is read.
pub log_request-line_text :
    {D L : Type 0} (log_message : LogLevel → Bytes → L → L) (r : Request D L) (callback : L)
    → HoldsBytes r
    → let env = (load_env r).variables in
      log_request log_message r callback
      ≡ some (
        log_message debug
            (line_text
              (env_value remote_addr_symbol env)
              (parse_port (env_value remote_port_symbol env))
              (header status_symbol r.response)
              (env_value request_method_symbol env)
              (env_value document_uri_symbol env))
            callback,
        load_env r,
      )
unfolding log_request remote_port
log_request-line_text log_message r callback h =
    let port = env_value remote_port_symbol (load_env r).variables in
    let value = λ (key : Symbol). env_value key (load_env r).variables in
    let line =
      request_line-line_text (value remote_addr_symbol) (parse_port port)
        (header status_symbol r.response) (value request_method_symbol) (value document_uri_symbol)
        (env_value-IsByte remote_addr_symbol r h) (parse_port-IsSigned port)
        (header-IsByte status_symbol r h) (env_value-IsByte request_method_symbol r h)
        (env_value-IsByte document_uri_symbol r h) in
    rw (
      env-load_env remote_addr_symbol r,
      env_again remote_port_symbol r,
      env_again request_method_symbol r,
      env_again document_uri_symbol r,
      line,
    )
