-- ===== src/Tests/Programs.antt =====
-- The example program, with a FastCGI library that keeps what it is given.
use mathlib.Core.List.{map}
use fcgiserver.Prelude.{
  ℕ, suc, ◌+◌, ◌^◌, ◌<◌, ◌≡◌, refl, List, [], ◌∷◌, ◌++◌, some, none, Bytes, codes, arith, length,
  All, IsByte, concat, true, if◌then◌else◌,
}
use fcgiserver.Prelude.Int.{pos}
use fcgiserver.Strings.{find}
use fcgiserver.Symbols.{startup, lookup}
use fcgiserver.Symbols.Compare.{startup-IsConsistent}
use fcgiserver.FastCgi.{FcgxStreams, env_of, destroy_data, fast_cgi_data}
use fcgiserver.FastCgi.Received.{Appends}
use fcgiserver.Request.Env.{env_loop, method_of}
use fcgiserver.Request.Parse.{parse_route}
use fcgiserver.Request.Response.Sending.{response_head}
use fcgiserver.Request.State.{Request, new_request, load_env, query}
use fcgiserver.Request.State.Variables.{find_line}
use fcgiserver.Request.State.Routed.{start_route}
use fcgiserver.Router.Context.{RequestMethod}
use fcgiserver.Server.EmptyRouter.Shown.{html_header}
use fcgiserver.Server.Pool.{Fcgx}
use fcgiserver.Server.Worker.{Worker, start, serve}
use fcgiserver.Server.Worker.Delivery.{router_handler}
use fcgiserver.HelloWorld.{program_router}
use fcgiserver.HelloWorld.Writing.{sent}
use fcgiserver.HelloWorld.Brackets.{brackets, own}
use fcgiserver.HelloWorld.Page.{page}
use fcgiserver.HelloWorld.Received.{hello_world-received}
use fcgiserver.Tests.Responses.{keep_message, in_order}

record Stream : Type 0 where
  environment : List Bytes
  written : Bytes

abbrev streams_of : FcgxStreams Stream
streams_of = record {
  get_str = λ size q. (pos 0, [], q);
  put_str_out = λ text q. (pos (length text), record q { written = q.written ++ text });
  put_str_err = λ text q. (pos (length text), q);
  flush_out = λ q. (pos 0, q);
  flush_err = λ q. (pos 0, q);
  finish = λ q. q;
  envp = λ q. q.environment;
}

abbrev written_to : Stream → Bytes
written_to q = q.written

streams-Appends : Appends streams_of written_to
streams-Appends = record { puts_out = λ text q. refl; finished = λ q. refl }

abbrev root_lines : List Bytes
root_lines = codes "REQUEST_METHOD=GET" ∷ codes "DOCUMENT_URI=/" ∷ codes "QUERY_STRING=a=%3C" ∷ []

abbrev asked : Stream
asked = record { environment = root_lines; written = [] }

root_uri_line : find_line (codes "DOCUMENT_URI") (env_of streams_of asked) ≡ some (codes "/")
unfolding find_line find fcgiserver.Prelude.equal env_of
root_uri_line = refl

root_method_line : find_line (codes "REQUEST_METHOD") (env_of streams_of asked) ≡ some (codes "GET")
unfolding find_line find fcgiserver.Prelude.equal env_of
root_method_line = refl

no_route : parse_route (codes "/") ≡ []
unfolding parse_route find
no_route = refl

root_is_get :
    method_of (codes "GET") (env_loop (env_of streams_of asked) startup []).1 ≡ RequestMethod.get
unfolding env_of method_of fcgiserver.Request.Env.resolve_method env_loop find lookup startup
    fcgiserver.Symbols.check_internalization fcgiserver.Symbols.internalize
root_is_get = refl

startup_names : All (All IsByte) startup.strings
unfolding startup
startup_names = ground arith

asked_room : length startup.strings + length (env_of streams_of asked) < 2 ^ 32
unfolding startup env_of
asked_room = omega arith

asked_bytes : All (All IsByte) (env_of streams_of asked)
unfolding env_of
asked_bytes = ground arith

abbrev program_thread : Worker Stream (List Bytes) ℕ ℕ
program_thread = start 1 (record {
  symbols = startup;
  logger = some [];
  router = router_handler (program_router keep_message (fast_cgi_data streams_of) in_order).0;
  global_context = none;
  create_thread_context = none;
})

abbrev asked_request : Request Stream (List Bytes)
asked_request =
    (start_route (new_request startup (env_of streams_of asked) asked (some []))).request

hello_world-received_example :
    let cgi = fast_cgi_data streams_of in
    let e = load_env (query asked_request).1 in
    let pieces = page (query asked_request).0 e.symbols e.variables in
    (next : Worker Stream (List Bytes) ℕ ℕ) × (kept : Stream) × (body : Bytes) × (serve keep_message
        cgi in_order
        (env_of streams_of asked)
        asked
        program_thread
      ≡ some next)
    × (next.finished ≡ kept ∷ [])
    × (written_to (destroy_data streams_of kept)
        ≡ [] ++ (concat (response_head asked_request.symbols in_order html_header) ++ body))
    × (body ≡ concat (map sent pieces))
    × (brackets body ≡ brackets (concat (map own pieces)))
hello_world-received_example =
    hello_world-received keep_message in_order streams_of written_to asked (codes "/") (codes "GET")
      program_thread streams-Appends refl startup-IsConsistent (λ key old h. h) asked_room
      startup_names asked_bytes root_uri_line root_method_line no_route root_is_get

abbrev library : Fcgx
library = record {
  init = pos 0;
  is_cgi = true;
  open_socket = λ path. pos 3;
  open_error = codes "Permission denied";
}
