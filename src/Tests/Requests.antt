-- ===== src/Tests/Requests.antt =====
-- A request with two lines of environment, and a route that is registered for it.
use fcgiserver.Prelude.{
  ℕ, ◌+◌, ◌^◌, ◌<◌, ◌≡◌, ◌≢◌, refl, List, [], ◌∷◌, some, none, false, Bytes, codes, arith, length,
  All, IsByte,
}
use fcgiserver.Strings.{find}
use fcgiserver.Symbols.{SymbolServer, startup, lookup, internalize}
use fcgiserver.Symbols.Compare.{startup-IsConsistent, startup-lookup, length-internalize-le}
use fcgiserver.Symbols.Table.{IsConsistent}
use fcgiserver.Symbols.Interning.{Learns, internalize-Learns}
use fcgiserver.Router.Routing.{LearnsAll, symbols_of-LearnsAll}
use fcgiserver.Logger.Stream.{recoded}
use fcgiserver.Request.Parse.{parse_route, parse_query}
use fcgiserver.Request.Response.{or_empty, Response, new_response}
use fcgiserver.Request.Env.{env_loop, env_map, env_value, method_of}
use fcgiserver.Request.Stream.{stream_text}
use fcgiserver.Request.Stream.Bodies.{Streams, stream_text-Streams}
use fcgiserver.Request.State.{
  new_request, env, request_method, full_route, query, request_method_symbol, query_string_symbol,
  document_uri_symbol,
}
use fcgiserver.Request.State.Variables.{find_line, env_value-find_line}
use fcgiserver.Request.State.Caches.{
  Access, asks_env, asks_method, asks_route, asks_relative_route, asks_query, swaps_route,
  access_each, variable, access_each-variable,
}
use fcgiserver.Request.State.Routed.{Routed, start_route}
use fcgiserver.Router.Context.{RequestMethod, handled}
use fcgiserver.Router.{
  Callback, SubRoute, new_sub_route, components, components_loop, skip_slashes,
  split_first_component, symbols_of,
}
use fcgiserver.Router.Operations.{add_route}
use fcgiserver.Router.Routing.{IsFree}
use fcgiserver.Request.Response.{find_header}
use fcgiserver.Request.State.{Request, relative_route, load_env}
use fcgiserver.Request.State.Texts.{HoldsBytes, load_env-HoldsBytes}
use fcgiserver.Server.Worker.{Worker, start, serve}
use fcgiserver.Server.Worker.Delivery.{router_handler, IsClosable, Delivers, serve-add_route}
use fcgiserver.Tests.Responses.{recorder, keep_message, in_order}

abbrev env_lines : List Bytes
env_lines = codes "REQUEST_METHOD=GET" ∷ codes "DOCUMENT_URI=/a/" ∷ []

startup_length : length startup.strings ≡ 27
unfolding startup
startup_length = refl

env_value-find_line_example :
    env_value document_uri_symbol (env_map env_lines startup []).0
    ≡ or_empty (find_line (codes "DOCUMENT_URI") env_lines)
env_value-find_line_example =
    env_value-find_line (codes "DOCUMENT_URI") document_uri_symbol env_lines startup
      startup-IsConsistent (startup-lookup 9 (codes "DOCUMENT_URI") refl)
      (omega (arith, startup_length))

abbrev accesses : List Access
accesses =
    asks_query ∷ asks_relative_route ∷ swaps_route [] ∷ asks_env 3 ∷ asks_method ∷ asks_route ∷ []

access_each-variable_example :
    let r = access_each {D = Bytes} {L = Bytes} accesses (new_request startup env_lines [] none) in
    ((key : ℕ) → (env key r).0 ≡ variable env_lines startup key)
    × ((request_method r).0
        ≡ method_of
            (variable env_lines startup request_method_symbol)
            (env_loop env_lines startup []).1)
    × ((full_route r).0 ≡ parse_route (variable env_lines startup document_uri_symbol))
    × ((query r).0 ≡ parse_query (variable env_lines startup query_string_symbol))
access_each-variable_example = access_each-variable env_lines startup [] none accesses

abbrev a_route : Bytes
a_route = codes "/a"

abbrev silent : Callback (Routed (List Bytes) (List Bytes))
silent c = c

abbrev root : SubRoute (Routed (List Bytes) (List Bytes))
root = new_sub_route

abbrev added : SymbolServer
added = (add_route silent a_route RequestMethod.get startup root).1

a_room : length (components a_route) ≡ 1
unfolding components components_loop skip_slashes split_first_component find
a_room = refl

added_length : length added.strings ≡ 28
unfolding add_route components components_loop skip_slashes split_first_component find startup
    symbols_of
added_length = refl

root-IsFree : IsFree (symbols_of (components a_route) startup).0 root
unfolding fcgiserver.Router.find_route components components_loop skip_slashes split_first_component
    find startup symbols_of
root-IsFree = (refl, refl)

uri_line : find_line (codes "DOCUMENT_URI") env_lines ≡ some (codes "/a/")
unfolding find_line find fcgiserver.Prelude.equal
uri_line = refl

method_line : find_line (codes "REQUEST_METHOD") env_lines ≡ some (codes "GET")
unfolding find_line find fcgiserver.Prelude.equal
method_line = refl

same_route : parse_route (codes "/a/") ≡ parse_route a_route
unfolding parse_route find
same_route = refl

-- The table when a later request begins.
abbrev grown : SymbolServer
grown = (internalize (codes "HTTP_HOST") added).1

added-LearnsAll : LearnsAll (components a_route) startup
added-LearnsAll =
    symbols_of-LearnsAll (components a_route) startup startup-IsConsistent
      (omega (arith, startup_length, a_room))

added-IsConsistent : IsConsistent added
added-IsConsistent = unfold add_route in added-LearnsAll.consistent

grown-Learns : Learns (codes "HTTP_HOST") added (internalize (codes "HTTP_HOST") added).0 grown
grown-Learns =
    internalize-Learns (codes "HTTP_HOST") added added-IsConsistent (omega (arith, added_length))

is_get : method_of (codes "GET") (env_loop env_lines grown []).1 ≡ RequestMethod.get
unfolding internalize method_of fcgiserver.Request.Env.resolve_method env_loop find lookup add_route
    components components_loop skip_slashes split_first_component startup
    fcgiserver.Symbols.check_internalization symbols_of
is_get = refl

abbrev waiting : Worker (List Bytes) (List Bytes) ℕ ℕ
waiting = start 1 (record {
  symbols = grown;
  logger = some [];
  router = router_handler (add_route silent a_route RequestMethod.get startup root).0;
  global_context = none;
  create_thread_context = none;
})

abbrev left : Request (List Bytes) (List Bytes)
left = (start_route (new_request grown env_lines [] (some []))).request

left-IsClosable : IsClosable left
unfolding relative_route full_route env load_env find_header
left-IsClosable =
    let fresh : HoldsBytes
        (new_request {D = List Bytes} {L = List Bytes} grown env_lines [] (some [])) =
      record { lines = ground arith; values = tt; headers = tt } in
    record {
      bytes = record {
        lines = ground arith;
        values = (load_env-HoldsBytes (new_request grown env_lines [] (some [])) fresh).values;
        headers = tt;
      };
      shows = λ status found. absurd (ground arith);
      there = λ sent. absurd (ground arith);
    }

serve-add_route_example :
    Delivers keep_message recorder in_order handled left waiting
      (serve keep_message recorder in_order env_lines [] waiting)
serve-add_route_example =
    serve-add_route keep_message recorder in_order env_lines startup root a_route (codes "/a/")
      (codes "GET") RequestMethod.get silent [] waiting startup-IsConsistent
      (startup-lookup 9 (codes "DOCUMENT_URI") refl)
      (startup-lookup 5 (codes "REQUEST_METHOD") refl) (omega (arith, startup_length, a_room))
      grown-Learns.consistent grown-Learns.kept
      (omega (arith, added_length, length-internalize-le (codes "HTTP_HOST") added)) root-IsFree
      uri_line method_line same_route is_get refl left-IsClosable

hi_shown : recoded (codes "hi") ≢ []
unfolding fcgiserver.Request.Codec.utf8_decode fcgiserver.Request.Codec.utf8_encode
    fcgiserver.Utils.utf8_to_32 fcgiserver.Utils.utf32_to_8
hi_shown h = ground arith

abbrev unsent : Response (List Bytes) Bytes
unsent = new_response [] none

stream_text-Streams_example :
    Streams recorder in_order startup
      (codes "hi")
      unsent
      (stream_text startup recorder in_order fcgiserver.Formatter.utf8 (codes "hi") unsent)
stream_text-Streams_example =
    stream_text-Streams recorder in_order startup (codes "hi") unsent refl (ground arith) hi_shown
