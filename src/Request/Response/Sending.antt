-- ===== src/Request/Response/Sending.antt =====
-- The order of what a request writes to the data of the server (src/lib/request.cpp).
use fcgiserver.Prelude.{
  ◌≡◌, ◌∙◌, refl, true, false, List, [], ◌∷◌, ◌++◌, some, Bytes, codes, length, ap, sym,
  if◌then◌else◌, Bool-cases, inl, inr,
}
use fcgiserver.Digits.{print}
use fcgiserver.Symbols.{SymbolServer}
use fcgiserver.Logger.{LogLevel}
use fcgiserver.Request.Response.{
  CgiData, HeaderMap, emplace, Response, status_symbol, content_type_symbol, content_length_symbol,
  no_data_message, with_status, set_header, set_http_status, set_content_type_as, set_content_type,
  write_all, header_lines, send_headers, write, destroy,
}

module _ {D : Type 0} (cgi : CgiData D) where
  pub write_all-append :
      (xs ys : List Bytes) (d : D)
      → write_all cgi (xs ++ ys) d ≡ write_all cgi ys (write_all cgi xs d)
  write_all-append [] ys d = refl
  write_all-append (x ∷ xs) ys d = write_all-append xs ys (cgi.write_data x d).1

-- The header lines for headers, and the empty line after them.
abbrev pub response_head : SymbolServer → (HeaderMap → HeaderMap) → HeaderMap → List Bytes
response_head s iterate headers = header_lines s (iterate (with_status headers))

module _ {D L : Type 0} (s : SymbolServer) (cgi : CgiData D) (iterate : HeaderMap → HeaderMap) where
  -- A sequence of calls of `write`.
  abbrev pub write_each : List Bytes → Response D L → Response D L
  write_each [] r = r
  write_each (buffer ∷ buffers) r = write_each buffers (write s cgi iterate buffer r).1

  write_each_sent :
      (buffers : List Bytes) (r : Response D L)
      → r.headers_sent ≡ true
      → (write_each buffers r).cgi_data ≡ write_all cgi buffers r.cgi_data
  unfolding write send_headers
  write_each_sent [] r h = refl
  write_each_sent (buffer ∷ buffers) r h =
      rw (h, send_headers)
        (write_each_sent buffers
          (record r { cgi_data = (cgi.write_data buffer r.cgi_data).1; headers_sent = true }) refl)

  -- If the headers were not sent before, the first `write` sends the header lines before its buffer;
  -- after it only the buffers are sent, in the order of the calls.
  pub write_each-write_all :
      (buffer : Bytes) (buffers : List Bytes) (r : Response D L)
      → r.headers_sent ≡ false
      → (write_each (buffer ∷ buffers) r).cgi_data
        ≡ write_all cgi (response_head s iterate r.headers ++ buffer ∷ buffers) r.cgi_data
  unfolding write send_headers
  write_each-write_all buffer buffers r h =
      let head = response_head s iterate r.headers in
      rw (h, send_headers)
        (write_each_sent buffers
            (record r {
              headers = with_status r.headers;
              cgi_data = (cgi.write_data buffer (write_all cgi head r.cgi_data)).1;
              headers_sent = true;
            })
            refl
          ∙ sym (write_all-append cgi head (buffer ∷ buffers) r.cgi_data))

-- The headers of the answer that the destructor gives: those that were set before win.
abbrev pub no_data_headers : HeaderMap → HeaderMap
no_data_headers headers =
    emplace content_length_symbol (print 10 (length no_data_message)) (
      emplace content_type_symbol (codes "text/plain")
        (emplace status_symbol (codes "500") headers))

status_printed : print 10 500 ≡ codes "500"
unfolding print
status_printed = refl

-- A request for which nothing was written is answered when it is destroyed, with the header lines
-- and the message; the status is 500, and the type and the length are those of the message, unless
-- the handler had set them. A request that was answered writes nothing more.
pub destroy-write_all :
    {D L : Type 0} (log_message : LogLevel → Bytes → L → L) (s : SymbolServer) (method uri : Bytes)
    (cgi : CgiData D) (iterate : HeaderMap → HeaderMap) (r : Response D L)
    → destroy log_message s method uri cgi iterate r
      ≡ some (
          if r.headers_sent
          then r.cgi_data
          else write_all cgi
              (response_head s iterate (no_data_headers r.headers) ++ no_data_message ∷ [])
              r.cgi_data)
unfolding destroy set_header set_http_status set_content_type set_content_type_as write send_headers
destroy-write_all log_message s method uri cgi iterate r = elim (Bool-cases r.headers_sent) [
  | inl sent ↦ rw sent
  | inr unsent ↦
      rw (unsent, status_printed)
        (ap some (
          sym (
            write_all-append cgi (response_head s iterate (no_data_headers r.headers))
              (no_data_message ∷ []) r.cgi_data)))
]
