-- ===== src/HelloWorld/Answering.antt =====
-- A request for the example program's page, from its accept to its answer (src/main/main.cpp,
-- src/lib/server.cpp, router.cpp and request.cpp).
use mathlib.Core.List.{map}
use mathlib.Core.Path.{subst}
use fcgiserver.Prelude.{
  ◌+◌, ◌^◌, ◌<◌, ◌≡◌, ◌∙◌, ap, sym, refl, true, List, [], ◌∷◌, ◌++◌, Option, some, Bytes, codes,
  All, IsByte, concat, length, if◌then◌else◌, arith, if_both,
}
use fcgiserver.Symbols.{SymbolServer, startup}
use fcgiserver.Symbols.Table.{IsConsistent}
use fcgiserver.Symbols.Compare.{startup-IsConsistent, startup-lookup}
use fcgiserver.Logger.{LogLevel}
use fcgiserver.Request.Env.{env_loop, method_of}
use fcgiserver.Request.Parse.{Param, parse_route}
use fcgiserver.Request.Response.{CgiData, HeaderMap, new_response, with_status, emplace, write_all}
use fcgiserver.Request.Response.Sending.{response_head}
use fcgiserver.Request.State.{
  Request, new_request, load_env, query, full_route, relative_route, request_method_symbol,
  document_uri_symbol,
}
use fcgiserver.Request.State.Texts.{IsText}
use fcgiserver.Request.State.Variables.{find_line}
use fcgiserver.Request.State.Delivery.{IsLater}
use fcgiserver.Request.State.Routed.{Routed, start_route}
use fcgiserver.Router.Context.{RequestMethod, handled}
use fcgiserver.Router.{new_sub_route, components, components_loop, skip_slashes, symbols_of}
use fcgiserver.Router.Operations.{add_route}
use fcgiserver.Server.EmptyRouter.Shown.{html_header, html_status, other_recoded, some-ne-none}
use fcgiserver.Router.Routing.{IsFree}
use fcgiserver.Server.Answer.Closing.{Answered}
use fcgiserver.Server.Worker.{Worker, serve}
use fcgiserver.Server.Worker.Delivery.{router_handler, IsClosable, serve-add_route}
use fcgiserver.HelloWorld.{hello_world, hello_callback, or_unchanged, program_router}
use fcgiserver.HelloWorld.Texts.{IsTextual, load_env-IsTextual, query-IsTextual, with_response}
use fcgiserver.HelloWorld.Writing.{sent}
use fcgiserver.HelloWorld.Brackets.{brackets, own, brackets-own}
use fcgiserver.HelloWorld.Page.{page, after_strings, fresh}
use fcgiserver.HelloWorld.Shown.{Shows, hello_world-Shows, page-OwnIsPlain}

html_texts : IsText (with_status html_header)
unfolding emplace
html_texts = ground arith

module _ {D L : Type 0} where
  parsed_already : (r : Request D L) → r.route_parsed ≡ true → (start_route r).request ≡ r
  unfolding relative_route
  parsed_already r h = ap (λ b. if b then r else (full_route r).1) h

  query-parsed : (r : Request D L) → r.route_parsed ≡ true → (query r).1.route_parsed ≡ true
  unfolding query fcgiserver.Request.State.env load_env
  query-parsed r h =
      if_both (λ (p : List Param × Request D L). p.1.route_parsed ≡ true) r.query_parsed _ _ h h

  load_env-parsed : (r : Request D L) → r.route_parsed ≡ true → (load_env r).route_parsed ≡ true
  unfolding load_env
  load_env-parsed r h = h

  -- What a request is when its route was parsed.
  start_route-IsTextual :
      (s : SymbolServer) (lines : List Bytes) (d : D) (logger : Option L)
      → All (All IsByte) lines
      → All (All IsByte) s.strings
      → IsTextual (start_route (new_request s lines d logger)).request
  unfolding relative_route full_route fcgiserver.Request.State.env load_env
  start_route-IsTextual s lines d logger texts names =
      let h : IsTextual (new_request s lines d logger) = record {
        bytes = record { lines = texts; values = tt; headers = tt };
        names = names;
        params = tt;
      } in
      let loaded = load_env-IsTextual (new_request s lines d logger) h in
      record {
        bytes = record {
          lines = loaded.bytes.lines;
          values = loaded.bytes.values;
          headers = loaded.bytes.headers;
        };
        names = loaded.names;
        params = loaded.params;
      }

  start_route-response :
      (s : SymbolServer) (lines : List Bytes) (d : D) (logger : Option L)
      → (start_route (new_request s lines d logger)).request.response ≡ new_response d logger
  unfolding relative_route full_route fcgiserver.Request.State.env load_env
  start_route-response s lines d logger = refl

module _ {D L : Type 0} (log_message : LogLevel → Bytes → L → L) (cgi : CgiData D)
    (iterate : HeaderMap → HeaderMap) (d : D) (logger : Option L) where
  -- The request that the callback leaves.
  abbrev left : Request D L → List Bytes → Request D L
  left r strings =
      with_response (load_env (query r).1) (after_strings cgi iterate d logger r.symbols strings)

  left-IsClosable :
      (r : Request D L) (strings : List Bytes) → IsTextual r → IsClosable (left r strings)
  left-IsClosable r strings h =
      let (_, q) = query-IsTextual r h in
      let e = load_env-IsTextual (query r).1 q in
      record {
        bytes = record { lines = e.bytes.lines; values = e.bytes.values; headers = html_texts };
        shows = λ status found. other_recoded status (sym html_status ∙ found);
        there = λ _ missing. some-ne-none (sym html_status ∙ missing);
      }

  hello_callback-left :
      (c : Routed D L)
      (shows : Shows log_message cgi iterate d logger c.request
        (hello_world log_message cgi iterate c.request))
      → (hello_callback log_message cgi iterate c).request ≡ left c.request shows.strings
  unfolding hello_callback
  hello_callback-left c shows =
      ap (λ o. (start_route (or_unchanged log_message cgi iterate o c.request)).request)
        shows.returns
      ∙ parsed_already (left c.request shows.strings)
          (load_env-parsed (query c.request).1 (query-parsed c.request c.is_parsed))

  -- The data of the server for such a request, when it is answered.
  answered_data :
      (r' : Request D L) (r : Request D L) (strings : List Bytes) (o : Option (Request D L))
      → r' ≡ left r strings
      → (a : Answered log_message cgi iterate handled r' o)
      → a.next.response.cgi_data ≡ (left r strings).response.cgi_data
  answered_data r' r strings o same a = a.wrote ∙ rw same

root_components : components (codes "/") ≡ []
unfolding components components_loop skip_slashes
root_components = refl

root_route : parse_route (codes "/") ≡ []
unfolding parse_route fcgiserver.Strings.find
root_route = refl

startup_length : length startup.strings ≡ 27
unfolding startup
startup_length = refl

root-IsFree :
    (C : Type 0) → IsFree (symbols_of (components (codes "/")) startup).0 (new_sub_route {C = C})
unfolding symbols_of components components_loop skip_slashes
root-IsFree C = refl

module _ {D L : Type 0} (log_message : LogLevel → Bytes → L → L) (cgi : CgiData D)
    (iterate : HeaderMap → HeaderMap) where
  program_router-IsLater :
      (t : SymbolServer) → IsLater t startup → IsLater t (program_router log_message cgi iterate).1
  unfolding add_route symbols_of components components_loop skip_slashes
  program_router-IsLater t h = h

module _ {D L U V : Type 0} (log_message : LogLevel → Bytes → L → L) (cgi : CgiData D)
    (iterate : HeaderMap → HeaderMap) (d : D) where
  -- A thread of a server with the example program's router serves a request by its page. The table
  -- of symbols of the server is that of the start or a later one, is consistent, has numbers left and
  -- holds bytes, and the request is one of bytes that gives the URI / and the method GET. The thread
  -- keeps the data to which the header lines and the page were sent: the texts of the page's
  -- description, in order, on which the brackets that open a tag are those of the program's own texts.
  pub serve-hello_world :
      (lines : List Bytes) (uri value : Bytes) (w : Worker D L U V)
      → let t = w.shared.symbols in
        let r = (start_route (new_request t lines d w.shared.logger)).request in
        let e = load_env (query r).1 in
        let pieces = page (query r).0 e.symbols e.variables in
        w.shared.router ≡ router_handler (program_router log_message cgi iterate).0
        → IsConsistent t
        → IsLater t startup
        → length t.strings + length lines < 2 ^ 32
        → All (All IsByte) t.strings
        → All (All IsByte) lines
        → find_line (codes "DOCUMENT_URI") lines ≡ some uri
        → find_line (codes "REQUEST_METHOD") lines ≡ some value
        → parse_route uri ≡ []
        → method_of value (env_loop lines t []).1 ≡ RequestMethod.get
        → (next : Worker D L U V) × (body : List Bytes) × (serve log_message cgi iterate lines d w
            ≡ some next)
          × (next.finished
              ≡ write_all cgi (response_head r.symbols iterate html_header ++ body) d ∷ w.finished)
          × (concat body ≡ concat (map sent pieces))
          × (brackets (concat body) ≡ brackets (concat (map own pieces)))
  serve-hello_world lines uri value w router v later room names texts uri_line method_line root
        is_get =
      let t = w.shared.symbols in
      let lg = w.shared.logger in
      let c : Routed D L = start_route (new_request t lines d lg) in
      let textual = start_route-IsTextual t lines d lg texts names in
      let e = load_env (query c.request).1 in
      let hello = hello_world log_message cgi iterate in
      let same : fresh d lg c.request ≡ c.request =
        ap (with_response c.request) (sym (start_route-response t lines d lg)) in
      let shows =
        subst (λ r. Shows log_message cgi iterate d lg c.request (hello r)) same
          (hello_world-Shows log_message cgi iterate d lg c.request textual) in
      let is_left = hello_callback-left log_message cgi iterate d lg c shows in
      let closable =
        subst IsClosable (sym is_left)
          (left-IsClosable log_message cgi iterate d lg c.request shows.strings textual) in
      let served =
        serve-add_route log_message cgi iterate lines startup new_sub_route (codes "/") uri value
          RequestMethod.get (hello_callback log_message cgi iterate) d w startup-IsConsistent
          (startup-lookup 9 (codes "DOCUMENT_URI") refl)
          (startup-lookup 5 (codes "REQUEST_METHOD") refl)
          (rw root_components (omega (arith, startup_length))) v
          (program_router-IsLater log_message cgi iterate t later) room (root-IsFree (Routed D L))
          uri_line method_line (root ∙ sym root_route) is_get router closable in
      (
        served.next,
        shows.strings,
        served.returns,
        served.finished
            ∙ ap (λ x. x ∷ w.finished)
                (answered_data log_message cgi iterate d lg _ c.request shows.strings _ is_left
                  served.answered),
        shows.spells,
        rw shows.spells (
            brackets-own (page (query c.request).0 e.symbols e.variables)
              (page-OwnIsPlain (query c.request).0 e.symbols e.variables)),
      )
