-- ===== src/HelloWorld/Shown.antt =====
-- The callback of the example program as a whole (src/main/main.cpp).
use mathlib.Core.List.{map}
use fcgiserver.Prelude.{
  ◌≡◌, ◌∙◌, ap, sym, refl, List, [], ◌∷◌, ◌++◌, Option, some, Bytes, All, All-append, concat,
  concat-append, append_assoc,
}
use fcgiserver.Symbols.{SymbolServer}
use fcgiserver.Logger.{LogLevel}
use fcgiserver.Request.Env.{EnvMap}
use fcgiserver.Request.Parse.{Param}
use fcgiserver.Request.Response.{CgiData, HeaderMap, new_response, write_all}
use fcgiserver.Request.Response.Sending.{response_head}
use fcgiserver.Request.State.{Request, load_env, query}
use fcgiserver.Server.EmptyRouter.Shown.{html_header}
use fcgiserver.HelloWorld.{Piece, in_symbol_order, page_start, query_table, env_rows, hello_world}
use fcgiserver.HelloWorld.Texts.{
  IsTextual, in_symbol_order-IsText, load_env-IsTextual, query-IsTextual, with_response,
  query-with_response, load_env-with_response,
}
use fcgiserver.HelloWorld.Writing.{sent, Writes, pieces-Writes}
use fcgiserver.HelloWorld.Brackets.{
  brackets, own, OwnIsPlain, brackets-own, page_start-OwnIsPlain, query_table-OwnIsPlain,
  env_heading-OwnIsPlain, env_rows-OwnIsPlain,
}
use fcgiserver.HelloWorld.Page.{
  env_heading, page, env_heading-IsTextPiece, page_start-IsTextPiece, query_table-IsTextPiece,
  env_rows-IsTextPiece, after_strings, fresh, set_type, show_later, show_first,
}

pub page-OwnIsPlain :
    (params : List Param) (s : SymbolServer) (env : EnvMap) → All OwnIsPlain (page params s env)
page-OwnIsPlain params s env =
    let rows = env_rows-OwnIsPlain s (in_symbol_order s env) in
    All-append OwnIsPlain page_start _ page_start-OwnIsPlain (
      All-append OwnIsPlain (query_table params) _ (query_table-OwnIsPlain params)
        (All-append OwnIsPlain env_heading _ env_heading-OwnIsPlain rows))

concat-sent :
    (xs ys : List Piece)
    → concat (map sent (xs ++ ys)) ≡ concat (map sent xs) ++ concat (map sent ys)
concat-sent [] ys = refl
concat-sent (x ∷ xs) ys = ap (◌++◌ (sent x)) (concat-sent xs ys) ∙ sym (append_assoc (sent x) _ _)

spells_in_order :
    (p q e f : List Piece) (a b c g : List Bytes)
    → concat a ≡ concat (map sent p)
    → concat b ≡ concat (map sent q)
    → concat c ≡ concat (map sent e)
    → concat g ≡ concat (map sent f)
    → concat (((a ++ b) ++ c) ++ g) ≡ concat (map sent (p ++ (q ++ (e ++ f))))
spells_in_order p q e f a b c g ha hb hc hg =
    let left : concat (((a ++ b) ++ c) ++ g) ≡ concat a ++ (concat b ++ (concat c ++ concat g)) =
      simp (concat-append, append_assoc) in
    let right : concat (map sent (p ++ (q ++ (e ++ f))))
        ≡ concat (map sent p)
          ++ (concat (map sent q) ++ (concat (map sent e) ++ concat (map sent f))) =
      rw (concat-sent p (q ++ (e ++ f)), concat-sent q (e ++ f), concat-sent e f) in
    left ∙ rw (ha, hb, hc, hg) (sym right)

module _ {D L : Type 0} (log_message : LogLevel → Bytes → L → L) (cgi : CgiData D)
    (iterate : HeaderMap → HeaderMap) (d : D) (logger : Option L) where
  -- The strings of the page, and the request afterwards.
  pub record Shows (r : Request D L) (o : Option (Request D L)) : Type 0 where
    pub strings : List Bytes
    pub returns :
        o
        ≡ some (
            with_response
              (load_env (query r).1)
              (after_strings cgi iterate d logger r.symbols strings))
    pub spells :
        let e = load_env (query r).1 in
        concat strings ≡ concat (map sent (page (query r).0 e.symbols e.variables))

  pub hello_world-Shows :
      (r : Request D L)
      → IsTextual r
      → Shows r (hello_world log_message cgi iterate (fresh d logger r))
  unfolding hello_world fcgiserver.Request.Env.to_format
  hello_world-Shows r h =
      let (params, q) = query r in
      let (params_text, q_text) = query-IsTextual r h in
      let e = load_env q in
      let e_text = load_env-IsTextual q q_text in
      let env = in_symbol_order e.symbols e.variables in
      let env_text = in_symbol_order-IsText e.symbols e.variables e_text.bytes.values in
      let a : Writes L cgi iterate page_start =
        pieces-Writes cgi iterate page_start page_start-IsTextPiece in
      let b : Writes L cgi iterate (query_table params) =
        pieces-Writes cgi iterate (query_table params)
          (query_table-IsTextPiece params params_text) in
      let c : Writes L cgi iterate env_heading =
        pieces-Writes cgi iterate env_heading env_heading-IsTextPiece in
      let f : Writes L cgi iterate (env_rows e.symbols env) =
        pieces-Writes cgi iterate (env_rows e.symbols env)
          (env_rows-IsTextPiece e.symbols env e_text.names env_text) in
      let ab = a.strings ++ b.strings in
      let abc = ab ++ c.strings in
      let later = show_later cgi iterate d logger in
      record {
        strings = abc ++ f.strings;
        returns = rw (
          set_type d logger log_message r,
          show_first cgi iterate d logger r a,
          query-with_response r (after_strings cgi iterate d logger r.symbols a.strings),
          later (query_table params) b q r.symbols a.strings,
          later env_heading c q r.symbols ab,
          load_env-with_response q (after_strings cgi iterate d logger r.symbols abc),
          later (env_rows e.symbols env) f e r.symbols abc,
        );
        spells =
            spells_in_order page_start (query_table params) env_heading (env_rows e.symbols env)
              a.strings b.strings c.strings f.strings a.spells b.spells c.spells f.spells;
      }

  -- For a request of bytes that nothing was written to, the callback returns, and sends the header
  -- lines and a page: the texts of its description, in order, with the names and values of the
  -- parameters and variables as HTML content. The brackets on it that open a tag are those of the
  -- program's own texts.
  pub hello_world-page :
      (r : Request D L)
      → IsTextual r
      → r.response ≡ new_response d logger
      → let e = load_env (query r).1 in
        let pieces = page (query r).0 e.symbols e.variables in
        (next : Request D L) × (body : List Bytes) × (hello_world log_message cgi iterate r
          ≡ some next)
        × (next.response.cgi_data
            ≡ write_all cgi (response_head r.symbols iterate html_header ++ body) d)
        × (concat body ≡ concat (map sent pieces))
        × (brackets (concat body) ≡ brackets (concat (map own pieces)))
  hello_world-page r h untouched =
      let e = load_env (query r).1 in
      let shows = hello_world-Shows r h in
      let same : fresh d logger r ≡ r = ap (with_response r) (sym untouched) in
      let plain = page-OwnIsPlain (query r).0 e.symbols e.variables in
      (
        with_response e (after_strings cgi iterate d logger r.symbols shows.strings),
        shows.strings,
        ap (hello_world log_message cgi iterate) (sym same) ∙ shows.returns,
        refl,
        shows.spells,
        rw shows.spells (brackets-own (page (query r).0 e.symbols e.variables) plain),
      )
