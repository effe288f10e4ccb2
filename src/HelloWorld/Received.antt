-- ===== src/HelloWorld/Received.antt =====
-- The example program's page as the web server receives it (src/main/main.cpp,
-- src/lib/fast_cgi_data.cpp).
use mathlib.Core.List.{map}
use fcgiserver.Prelude.{
  ◌+◌, ◌^◌, ◌<◌, ◌≡◌, ◌∙◌, ap, [], ◌∷◌, ◌++◌, some, Bytes, codes, All, IsByte, concat,
  concat-append, length,
}
use fcgiserver.Symbols.{startup}
use fcgiserver.Symbols.Table.{IsConsistent}
use fcgiserver.Logger.{LogLevel}
use fcgiserver.FastCgi.{FcgxStreams, env_of, destroy_data, fast_cgi_data}
use fcgiserver.FastCgi.Received.{Appends, destroy_data-received}
use fcgiserver.Request.Env.{env_loop, method_of}
use fcgiserver.Request.Parse.{parse_route}
use fcgiserver.Request.Response.{HeaderMap}
use fcgiserver.Request.Response.Sending.{response_head}
use fcgiserver.Request.State.{new_request, load_env, query}
use fcgiserver.Request.State.Variables.{find_line}
use fcgiserver.Request.State.Delivery.{IsLater}
use fcgiserver.Request.State.Routed.{start_route}
use fcgiserver.Router.Context.{RequestMethod}
use fcgiserver.Server.EmptyRouter.Shown.{html_header}
use fcgiserver.Server.Worker.{Worker, serve}
use fcgiserver.Server.Worker.Delivery.{router_handler}
use fcgiserver.HelloWorld.{program_router}
use fcgiserver.HelloWorld.Writing.{sent}
use fcgiserver.HelloWorld.Brackets.{brackets, own}
use fcgiserver.HelloWorld.Page.{page}
use fcgiserver.HelloWorld.Answering.{serve-hello_world}

module _ {Q L U V : Type 0} (log_message : LogLevel → Bytes → L → L)
    (iterate : HeaderMap → HeaderMap) (fcgx : FcgxStreams Q) (out : Q → Bytes) where
  -- A thread of a server with the example program's router accepts a request of the FastCGI library,
  -- whose output stream appends what is put to it. The table of symbols of the server is that of the
  -- start or a later one, is consistent, has numbers left and holds bytes, and the environment is
  -- bytes and gives the URI / and the method GET. Then the thread serves it, and the stream gets the
  -- header lines and the page, and nothing else: the texts of the page's description, in order,
  -- with the names and values of the parameters and variables as HTML content. The brackets on the
  -- page that open a tag are those of the program's own texts.
  pub hello_world-received :
      (q : Q) (uri value : Bytes) (w : Worker Q L U V)
      → let cgi = fast_cgi_data fcgx in
        let lines = env_of fcgx q in
        let t = w.shared.symbols in
        let r = (start_route (new_request t lines q w.shared.logger)).request in
        let e = load_env (query r).1 in
        let pieces = page (query r).0 e.symbols e.variables in
        Appends fcgx out
        → w.shared.router ≡ router_handler (program_router log_message cgi iterate).0
        → IsConsistent t
        → IsLater t startup
        → length t.strings + length lines < 2 ^ 32
        → All (All IsByte) t.strings
        → All (All IsByte) lines
        → find_line (codes "DOCUMENT_URI") lines ≡ some uri
        → find_line (codes "REQUEST_METHOD") lines ≡ some value
        → parse_route uri ≡ []
        → method_of value (env_loop lines t []).1 ≡ RequestMethod.get
        → (next : Worker Q L U V) × (kept : Q) × (body : Bytes) × (serve log_message cgi iterate
              lines q w
            ≡ some next)
          × (next.finished ≡ kept ∷ w.finished)
          × (out (destroy_data fcgx kept)
              ≡ out q ++ (concat (response_head r.symbols iterate html_header) ++ body))
          × (body ≡ concat (map sent pieces))
          × (brackets body ≡ brackets (concat (map own pieces)))
  hello_world-received q uri value w appends router v later room names texts uri_line method_line
        root is_get =
      let cgi = fast_cgi_data fcgx in
      let lines = env_of fcgx q in
      let r = (start_route (new_request w.shared.symbols lines q w.shared.logger)).request in
      let head = response_head r.symbols iterate html_header in
      let (next, body, served, finished, spells, plain) =
        serve-hello_world log_message cgi iterate q lines uri value w router v later room names
          texts uri_line method_line root is_get in
      (
        next,
        _,
        concat body,
        served,
        finished,
        destroy_data-received fcgx out appends (head ++ body) q
            ∙ ap (λ text. out q ++ text) (concat-append head body),
        spells,
        plain,
      )
