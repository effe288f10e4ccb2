-- ===== src/HelloWorld/Page.antt =====
-- The page of the example program (src/main/main.cpp).
use mathlib.Core.List.{map}
use fcgiserver.Prelude.{
  ◌≡◌, ◌≢◌, ◌∙◌, ap, sym, refl, true, false, List, [], ◌∷◌, ◌++◌, Option, some, Bytes, codes, All,
  IsByte, concat, append_assoc, arith,
}
use fcgiserver.Symbols.{SymbolServer}
use fcgiserver.Logger.{LogLevel}
use fcgiserver.Formatter.{html}
use fcgiserver.Request.Env.{EnvMap}
use fcgiserver.Request.Parse.{Param, ContentEncoding}
use fcgiserver.Request.Response.{
  CgiData, HeaderMap, Response, new_response, with_status, write_all, emplace, set_header,
  set_content_type, set_content_type_as,
}
use fcgiserver.Request.Response.Sending.{write_each, response_head, write_all-append}
use fcgiserver.Request.State.{Request}
use fcgiserver.Request.State.Texts.{IsText}
use fcgiserver.Server.Answer.{change_response}
use fcgiserver.Server.EmptyRouter.Shown.{html_header}
use fcgiserver.HelloWorld.{
  Piece, streams, in_symbol_order, page_start, table_start, param_rows, query_table, env_rows, show,
}
use fcgiserver.HelloWorld.Texts.{IsTextParam, query_decode-IsByte, resolve-IsByte, with_response}
use fcgiserver.HelloWorld.Writing.{sent, IsTextPiece, Writes, write_each_first, write_each_later}
use fcgiserver.HelloWorld.Brackets.{sent_plain}

abbrev pub env_heading : List Piece
env_heading = table_start (codes "<h2>Environment</h2>")

-- The page for parameters and an environment.
abbrev pub page : List Param → SymbolServer → EnvMap → List Piece
page params s env =
    page_start ++ (query_table params ++ (env_heading ++ env_rows s (in_symbol_order s env)))

pub page_start-IsTextPiece : All IsTextPiece page_start
page_start-IsTextPiece = (ground arith, (ground arith, (ground arith, tt)))

row_texts :
    All IsByte (codes "<tr><td>")
    × All IsByte (codes "</td><td>")
    × All IsByte (codes "</td></tr>\n")
row_texts = (ground arith, ground arith, ground arith)

heading-IsTextPiece : (heading : Bytes) → All IsByte heading → All IsTextPiece (table_start heading)
heading-IsTextPiece heading h = (h, (ground arith, (ground arith, (ground arith, tt))))

param_rows-IsTextPiece :
    (params : List Param) → All IsTextParam params → All IsTextPiece (param_rows params)
param_rows-IsTextPiece [] _ = (ground arith, (ground arith, tt))
param_rows-IsTextPiece ((key, value) ∷ params) ((k, v), h) = (
  row_texts.0,
  (
    query_decode-IsByte key k,
    (row_texts.1, (query_decode-IsByte value v, (row_texts.2, param_rows-IsTextPiece params h))),
  ),
)

pub query_table-IsTextPiece :
    (params : List Param) → All IsTextParam params → All IsTextPiece (query_table params)
query_table-IsTextPiece [] _ = tt
query_table-IsTextPiece (param ∷ params) h =
    let (a, (b, (c, (d, _)))) = heading-IsTextPiece (codes "<h2>Query</h2>") (ground arith) in
    (a, (b, (c, (d, param_rows-IsTextPiece (param ∷ params) h))))

pub env_heading-IsTextPiece : All IsTextPiece env_heading
env_heading-IsTextPiece = heading-IsTextPiece (codes "<h2>Environment</h2>") (ground arith)

pub env_rows-IsTextPiece :
    (s : SymbolServer) (env : EnvMap)
    → All (All IsByte) s.strings
    → IsText env
    → All IsTextPiece (env_rows s env)
env_rows-IsTextPiece s [] names _ = (ground arith, (ground arith, (ground arith, tt)))
env_rows-IsTextPiece s ((key, value) ∷ env) names (h, hs) = (
  row_texts.0,
  (
    resolve-IsByte key s names,
    (row_texts.1, (h, (row_texts.2, env_rows-IsTextPiece s env names hs))),
  ),
)

page_start_shown : concat (map sent page_start) ≢ []
page_start_shown empty =
    let doctype = codes "<!DOCTYPE html>\n" in
    let rest =
      sent (streams (codes "<html><body>\n"))
      ++ (sent (streams (codes "<h1>Hello world!</h1>\n")) ++ []) in
    let begins : concat (map sent page_start) ≡ doctype ++ rest =
      ap (λ t. t ++ rest) (sent_plain doctype refl) in
    let bad : doctype ++ rest ≡ [] = sym begins ∙ empty in ground arith

module _ {D L : Type 0} (d : D) (logger : Option L) where
  -- The response with the type text/html.
  abbrev pub typed : Response D L
  typed = record (new_response d logger) {
    headers = html_header;
    encoding = some ContentEncoding.html;
  }

  -- A request that nothing was written to.
  abbrev pub fresh : Request D L → Request D L
  fresh r = with_response r (new_response d logger)

  pub set_type :
      (log_message : LogLevel → Bytes → L → L) (r : Request D L)
      → change_response
          (λ s method uri. set_content_type log_message s method uri (codes "text/html"))
          (fresh r)
        ≡ some (with_response r typed)
  unfolding set_content_type set_content_type_as set_header emplace
      fcgiserver.Request.Parse.detect_encoding
  set_type log_message r = refl

module _ {D L : Type 0} (cgi : CgiData D) (iterate : HeaderMap → HeaderMap) (d : D)
    (logger : Option L) where
  -- The response after strings were written to it.
  abbrev pub after_strings : SymbolServer → List Bytes → Response D L
  after_strings s strings = record {
    cgi_data = write_all cgi (response_head s iterate html_header ++ strings) d;
    logger = logger;
    headers = with_status html_header;
    encoding = some ContentEncoding.html;
    headers_sent_warning = false;
    headers_sent = true;
  }

  pub show_later :
      (pieces : List Piece) (w : Writes L cgi iterate pieces) (r : Request D L) (s : SymbolServer)
      (strings : List Bytes)
      → show cgi iterate html pieces (with_response r (after_strings s strings))
        ≡ some (with_response r (after_strings s (strings ++ w.strings)))
  show_later pieces w r s strings =
      let head = response_head s iterate html_header in
      let written =
        w.returns r.symbols (after_strings s strings)
        ∙ ap some (write_each_later cgi iterate r.symbols w.strings (after_strings s strings)) in
      let same : write_all cgi w.strings (write_all cgi (head ++ strings) d)
          ≡ write_all cgi (head ++ (strings ++ w.strings)) d =
        sym (write_all-append cgi (head ++ strings) w.strings d)
        ∙ ap (λ texts. write_all cgi texts d) (append_assoc head strings w.strings) in
      rw written (
        ap (λ (x : D). some (with_response r (record (after_strings s strings) { cgi_data = x })))
          same)

  pub show_first :
      (r : Request D L) (w : Writes L cgi iterate page_start)
      → show cgi iterate html page_start (with_response r (typed d logger))
        ≡ some (with_response r (after_strings r.symbols w.strings))
  show_first r w = first w.strings refl
    where
      first :
          (strings : List Bytes)
          → w.strings ≡ strings
          → show cgi iterate html page_start (with_response r (typed d logger))
            ≡ some (with_response r (after_strings r.symbols strings))
      first [] e = absurd (page_start_shown (sym w.spells ∙ ap concat e))
      first (x ∷ xs) e =
          let written =
            w.returns r.symbols (typed d logger)
            ∙ ap (λ strings. some (write_each r.symbols cgi iterate strings (typed d logger))) e
            ∙ ap some (write_each_first cgi iterate r.symbols x xs (typed d logger)) in
          rw written
