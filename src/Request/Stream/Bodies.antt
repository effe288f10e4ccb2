-- ===== src/Request/Stream/Bodies.antt =====
-- What streaming a text writes (src/lib/request_stream.cpp).
use fcgiserver.Prelude.{
  ◌≡◌, ◌≢◌, ◌∙◌, refl, sym, true, false, List, [], ◌∷◌, ◌++◌, Option, some, Bytes, concat, All,
  IsByte,
}
use fcgiserver.Symbols.{SymbolServer}
use fcgiserver.Formatter.{utf8}
use fcgiserver.Formatter.Text.{format_text-Formats}
use fcgiserver.Formatter.Html.{format_text_recodes}
use fcgiserver.Logger.Stream.{recoded}
use fcgiserver.Request.Response.{
  CgiData, HeaderMap, Response, send_headers, with_status, write, write_all,
}
use fcgiserver.Request.Response.Sending.{write_each, write_each-write_all, response_head}
use fcgiserver.Request.Stream.{append_strings, stream_text}

module _ {D L : Type 0} (cgi : CgiData D) (iterate : HeaderMap → HeaderMap) where
  module _ (s : SymbolServer) where
    pub append_strings-write_each :
        (strings : List Bytes) (r : Response D L)
        → append_strings s cgi iterate strings r ≡ write_each s cgi iterate strings r
    append_strings-write_each [] r = refl
    append_strings-write_each (x ∷ xs) r = append_strings-write_each xs (write s cgi iterate x r).1

    -- A response that is sent, with these headers, and with its logger.
    abbrev pub IsSent : HeaderMap → Option L → Response D L → Type 0
    IsSent headers logger r = (r.headers_sent ≡ true) × (r.headers ≡ headers) × (r.logger ≡ logger)

    write-kept :
        (buffer : Bytes) (r : Response D L)
        → r.headers_sent ≡ true
        → IsSent r.headers r.logger (write s cgi iterate buffer r).1
    unfolding write send_headers
    write-kept buffer r sent = rw (sent, send_headers) (refl, refl, refl)

    pub write_each-kept :
        (buffers : List Bytes) (r : Response D L) {headers : HeaderMap} {logger : Option L}
        → IsSent headers logger r
        → IsSent headers logger (write_each s cgi iterate buffers r)
    write_each-kept [] r h = h
    write_each-kept (buffer ∷ buffers) r (sent, same, kept) =
        let (sent', same', kept') = write-kept buffer r sent in
        write_each-kept buffers (write s cgi iterate buffer r).1 (sent', same' ∙ same, kept' ∙ kept)

    pub write-first :
        (buffer : Bytes) (r : Response D L)
        → r.headers_sent ≡ false
        → IsSent (with_status r.headers) r.logger (write s cgi iterate buffer r).1
    unfolding write send_headers
    write-first buffer r unsent = rw (unsent, send_headers) (refl, refl, refl)

    -- The headers were sent, then strings that spell the text.
    pub record Streams (text : Bytes) (r : Response D L) (result : Option (Response D L))
        : Type 0 where
      pub next : Response D L
      pub returns : result ≡ some next
      pub body : List Bytes
      pub spells : concat body ≡ recoded text
      pub sent : next.headers_sent ≡ true
      pub headers : next.headers ≡ with_status r.headers
      pub logger : next.logger ≡ r.logger
      pub wrote :
          next.cgi_data ≡ write_all cgi (response_head s iterate r.headers ++ body) r.cgi_data

    append_strings-Streams :
        (text : Bytes) (strings : List Bytes) (r : Response D L)
        → r.headers_sent ≡ false
        → recoded text ≢ []
        → concat strings ≡ recoded text
        → Streams text r (some (append_strings s cgi iterate strings r))
    append_strings-Streams text [] r unsent some_text spells = absurd (some_text (sym spells))
    append_strings-Streams text (x ∷ xs) r unsent some_text spells =
        let (sent, same, kept) =
          write_each-kept xs (write s cgi iterate x r).1 (write-first x r unsent) in
        rw (append_strings-write_each (x ∷ xs) r) (record {
          next = write_each s cgi iterate (x ∷ xs) r;
          returns = refl;
          body = x ∷ xs;
          spells = spells;
          sent = sent;
          headers = same;
          logger = kept;
          wrote = write_each-write_all s cgi iterate x xs r unsent;
        })

    -- The first text that is streamed in the format UTF8, if it is bytes and has a glyph, is preceded
    -- by the header lines, and what follows them is the text as utf8_decode and then utf8_encode make
    -- it.
    pub stream_text-Streams :
        (text : Bytes) (r : Response D L)
        → r.headers_sent ≡ false
        → All IsByte text
        → recoded text ≢ []
        → Streams text r (stream_text s cgi iterate utf8 text r)
    unfolding stream_text
    stream_text-Streams text r unsent bytes some_text =
        let f = format_text-Formats utf8 text (cc) bytes in
        rw f.returns (
          append_strings-Streams text f.strings r unsent some_text
            (format_text_recodes text bytes f.returns))
