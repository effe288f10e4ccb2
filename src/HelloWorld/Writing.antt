-- ===== src/HelloWorld/Writing.antt =====
-- What the example program's page becomes on the way to the server (src/main/main.cpp).
use mathlib.Core.List.{map}
use fcgiserver.Prelude.{
  ◌≡◌, ◌∙◌, ap, sym, refl, true, false, List, [], ◌∷◌, ◌++◌, Option, some, Bytes, All, IsByte,
  concat, concat-append, ◌>>=◌,
}
use fcgiserver.Symbols.{SymbolServer}
use fcgiserver.Utils.{convert_state}
use fcgiserver.Utils.Glyphs.{glyphs}
use fcgiserver.Formatter.{html, html_content, format_text}
use fcgiserver.Formatter.Text.{found_bytes, Formats, format_text-Formats}
use fcgiserver.Request.Response.{
  CgiData, HeaderMap, Response, send_headers, with_status, write, write_all,
}
use fcgiserver.Request.Response.Sending.{write_each, response_head, write_all-append}
use fcgiserver.Request.Stream.{append_strings, stream_text, stream_html}
use fcgiserver.Request.Stream.Bodies.{append_strings-write_each}
use fcgiserver.HelloWorld.{Piece, streams, escapes, stream_piece, stream_pieces}

-- HTML content as it is sent.
abbrev pub escaped : Bytes → Bytes
escaped text = found_bytes html_content (glyphs convert_state text)

-- A piece as it is sent.
abbrev pub sent : Piece → Bytes
sent (streams text) = found_bytes html (glyphs convert_state text)
sent (escapes text) = escaped text

abbrev pub IsTextPiece : Piece → Type 0
IsTextPiece (streams text) = All IsByte text
IsTextPiece (escapes text) = All IsByte text

-- Strings that pieces are written as.
pub record Writes {D : Type 0} (L : Type 0) (cgi : CgiData D) (iterate : HeaderMap → HeaderMap)
    (pieces : List Piece) : Type 0 where
  pub strings : List Bytes
  pub spells : concat strings ≡ concat (map sent pieces)
  pub returns :
      (s : SymbolServer) (r : Response D L)
      → stream_pieces cgi iterate html s pieces r ≡ some (write_each s cgi iterate strings r)

module _ {D L : Type 0} (cgi : CgiData D) (iterate : HeaderMap → HeaderMap) where
  module _ (s : SymbolServer) where
    write_each-append :
        (xs ys : List Bytes) (r : Response D L)
        → write_each s cgi iterate (xs ++ ys) r
          ≡ write_each s cgi iterate ys (write_each s cgi iterate xs r)
    write_each-append [] ys r = refl
    write_each-append (x ∷ xs) ys r = write_each-append xs ys (write s cgi iterate x r).1

    -- Headers that were sent are not sent again.
    pub write_each_later :
        (strings : List Bytes) (r : Response D L)
        → write_each s cgi iterate strings (record r { headers_sent = true })
          ≡ record r { headers_sent = true; cgi_data = write_all cgi strings r.cgi_data }
    unfolding write send_headers
    write_each_later [] r = refl
    write_each_later (x ∷ xs) r =
        write_each_later xs (record r { cgi_data = (cgi.write_data x r.cgi_data).1 })

    pub write_each_first :
        (string : Bytes) (strings : List Bytes) (r : Response D L)
        → write_each s cgi iterate (string ∷ strings) (record r { headers_sent = false })
          ≡ record r {
            headers = with_status r.headers;
            headers_sent = true;
            cgi_data =
                write_all cgi (response_head s iterate r.headers ++ string ∷ strings) r.cgi_data;
          }
    unfolding write send_headers
    write_each_first x xs r =
        let head = response_head s iterate r.headers in
        write_each_later xs (record r {
          headers = with_status r.headers;
          cgi_data = (cgi.write_data x (write_all cgi head r.cgi_data)).1;
        })
        ∙ ap
            (λ (d : D). record r {
              headers = with_status r.headers;
              headers_sent = true;
              cgi_data = d;
            })
            (sym (write_all-append cgi head (x ∷ xs) r.cgi_data))

  formatted-Writes :
      (piece : Piece) (pieces : List Piece) (result : Option (List Bytes))
      → Formats (sent piece) result
      → ((s : SymbolServer) (r : Response D L)
          → stream_piece cgi iterate html s piece r
            ≡ (result >>= λ strings. some (append_strings s cgi iterate strings r)))
      → Writes L cgi iterate pieces
      → Writes L cgi iterate (piece ∷ pieces)
  unfolding stream_pieces
  formatted-Writes piece pieces result f streamed w = record {
    strings = f.strings ++ w.strings;
    spells = concat-append f.strings w.strings ∙ rw (f.spells, w.spells);
    returns = λ s r.
        let first : stream_piece cgi iterate html s piece r
            ≡ some (write_each s cgi iterate f.strings r) =
          streamed s r
          ∙ rw f.returns (ap some (append_strings-write_each cgi iterate s f.strings r)) in
        rw first (
          w.returns s (write_each s cgi iterate f.strings r)
          ∙ ap some (sym (write_each-append s f.strings w.strings r)));
  }

  pub pieces-Writes : (pieces : List Piece) → All IsTextPiece pieces → Writes L cgi iterate pieces
  unfolding stream_pieces stream_text stream_html fcgiserver.Request.Env.stream_content
  pieces-Writes [] _ = record { strings = []; spells = refl; returns = λ s r. refl }
  pieces-Writes (streams text ∷ pieces) (h, hs) =
      formatted-Writes (streams text) pieces (format_text html text)
        (format_text-Formats html text (cc) h) (λ s r. refl) (pieces-Writes pieces hs)
  pieces-Writes (escapes text ∷ pieces) (h, hs) =
      formatted-Writes (escapes text) pieces (format_text html_content text)
        (format_text-Formats html_content text (cc) h) (λ s r. refl) (pieces-Writes pieces hs)
