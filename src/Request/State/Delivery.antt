-- ===== src/Request/State/Delivery.antt =====
-- A request from its environment to the callback of its route: src/lib/request.cpp, router.cpp and
-- symbol_server.cpp together.
use fcgiserver.Prelude.{
  ◌+◌, ◌^◌, ◌<◌, ◌≡◌, ◌∙◌, sym, ap, refl, List, [], ◌∷◌, Option, some, Bytes, codes, length,
}
use fcgiserver.Symbols.{Symbol, SymbolServer, lookup}
use fcgiserver.Symbols.Table.{IsConsistent}
use fcgiserver.Request.Parse.{parse_route}
use fcgiserver.Request.Env.{env_loop, env_map, method_of}
use fcgiserver.Request.State.{
  Request, new_request, load_env, env, request_method, full_route, relative_route,
  request_method_symbol, document_uri_symbol,
}
use fcgiserver.Request.State.Variables.{find_line, env_loop-Reads, env_value-find_line}
use fcgiserver.Request.State.Caches.{asks_relative_route, variable, access_each-variable}
use fcgiserver.Request.State.Routed.{Routed, routed_context, start_route, route_request}
use fcgiserver.Router.Context.{RequestMethod, handled}
use fcgiserver.Router.{Callback, SubRoute, components, symbols_of}
use fcgiserver.Router.Operations.{add_route}
use fcgiserver.Router.Path.{components-parse_route}
use fcgiserver.Router.Tree.{endpoint_at}
use fcgiserver.Router.Routing.{
  IsFree, Names, Names-kept, symbols_of-LearnsAll, handle_request-endpoint_at,
  endpoint_at-add_route, IsFree-add_route,
}

module _ {D L : Type 0} (lines : List Bytes) (s : SymbolServer) (icd : D) (lg : Option L) where
  abbrev fresh : Request D L
  fresh = new_request s lines icd lg

  start_route-symbols : (start_route fresh).request.symbols ≡ (env_loop lines s []).1
  unfolding relative_route full_route env load_env env_map
  start_route-symbols = refl

  start_route-relative :
      (relative_route (start_route fresh).request).0
      ≡ parse_route (variable lines s document_uri_symbol)
  unfolding relative_route full_route env load_env env_map
  start_route-relative = refl

  start_route-method :
      (request_method (start_route fresh).request).0
      ≡ method_of (variable lines s request_method_symbol) (env_loop lines s []).1
  start_route-method = (access_each-variable lines s icd lg (asks_relative_route ∷ [])).1

  variable-find_line :
      (name : Bytes) (k : Symbol) (value : Bytes)
      → IsConsistent s
      → lookup name s.index ≡ some k
      → length s.strings + length lines < 2 ^ 32
      → find_line name lines ≡ some value
      → variable lines s k ≡ value
  unfolding env_map
  variable-find_line name k value v known room found =
      env_value-find_line name k lines s v known room ∙ rw found

-- The same for a tree with a callback at symbols that are those of the route.
route_request-endpoint_at :
    {D L : Type 0} (lines : List Bytes) (s : SymbolServer) (root : SubRoute (Routed D L))
    (ps : List Bytes) (ks : List Symbol) (uri value : Bytes) (m : RequestMethod)
    (callback : Callback (Routed D L)) (icd : D) (lg : Option L)
    → IsConsistent s
    → lookup (codes "DOCUMENT_URI") s.index ≡ some document_uri_symbol
    → lookup (codes "REQUEST_METHOD") s.index ≡ some request_method_symbol
    → length s.strings + length lines < 2 ^ 32
    → Names s ps ks
    → IsFree ks root
    → endpoint_at ks m root ≡ some callback
    → find_line (codes "DOCUMENT_URI") lines ≡ some uri
    → find_line (codes "REQUEST_METHOD") lines ≡ some value
    → parse_route uri ≡ ps
    → method_of value (env_loop lines s []).1 ≡ m
    → let r = new_request s lines icd lg in
      route_request root r ≡ (handled, (callback (start_route r)).request)
unfolding route_request
route_request-endpoint_at lines s root ps ks uri value m callback icd lg v uri_known method_known
      room names free there uri_line method_line same_route is_method =
    let c = start_route (new_request s lines icd lg) in
    let s' = (env_loop lines s []).1 in
    let loaded =
      env_loop-Reads (codes "DOCUMENT_URI") document_uri_symbol lines s [] v uri_known room in
    let kept = λ (key : Bytes) (old : Symbol) (h : lookup key s.index ≡ some old).
      (env_loop-Reads key old lines s [] v h room).known in
    let uri_is =
      variable-find_line lines s icd lg (codes "DOCUMENT_URI") document_uri_symbol uri v uri_known
        room uri_line in
    let method_is =
      variable-find_line lines s icd lg (codes "REQUEST_METHOD") request_method_symbol value v
        method_known room method_line in
    let asked : (request_method c.request).0 ≡ m =
      start_route-method lines s icd lg ∙ ap (λ text. method_of text s') method_is ∙ is_method in
    let same : (relative_route c.request).0 ≡ ps =
      start_route-relative lines s icd lg ∙ ap parse_route uri_is ∙ same_route in
    let done =
      handle_request-endpoint_at routed_context s' root ps ks callback c loaded.consistent
        (Names-kept s s' ps ks kept names) free (ap (λ n. endpoint_at ks n root) asked ∙ there)
        same in
    rw (start_route-symbols lines s icd lg) (ap (λ p. (p.0, p.1.request)) done)

-- A later table of symbols keeps what an earlier one knows.
abbrev pub IsLater : SymbolServer → SymbolServer → Type 0
IsLater t s =
    (key : Bytes) (old : Symbol) → lookup key s.index ≡ some old → lookup key t.index ≡ some old

-- A callback is registered for a route and a method, in a table that knows the two variables. Then
-- a new request at any later table, whose environment gives a URI with the components of the route
-- and that method, is handled by that callback, if the numbers for symbols suffice and no router is
-- mounted on the way.
pub route_request-add_route :
    {D L : Type 0} (lines : List Bytes) (s t : SymbolServer) (root : SubRoute (Routed D L))
    (route uri value : Bytes) (m : RequestMethod) (callback : Callback (Routed D L)) (icd : D)
    (lg : Option L)
    → let ks = (symbols_of (components route) s).0 in
      IsConsistent s
      → lookup (codes "DOCUMENT_URI") s.index ≡ some document_uri_symbol
      → lookup (codes "REQUEST_METHOD") s.index ≡ some request_method_symbol
      → length s.strings + length (components route) < 2 ^ 32
      → IsConsistent t
      → IsLater t (add_route callback route m s root).1
      → length t.strings + length lines < 2 ^ 32
      → IsFree ks root
      → find_line (codes "DOCUMENT_URI") lines ≡ some uri
      → find_line (codes "REQUEST_METHOD") lines ≡ some value
      → parse_route uri ≡ parse_route route
      → method_of value (env_loop lines t []).1 ≡ m
      → let r = new_request t lines icd lg in
        route_request (add_route callback route m s root).0 r
        ≡ (handled, (callback (start_route r)).request)
unfolding add_route
route_request-add_route lines s t root route uri value m callback icd lg v uri_known method_known
      room w later room' free uri_line method_line same_route is_method =
    let l = symbols_of-LearnsAll (components route) s v room in
    let (ks, s') = symbols_of (components route) s in
    route_request-endpoint_at lines t (add_route callback route m s root).0 (components route) ks
      uri value m callback icd lg w
      (later (codes "DOCUMENT_URI") document_uri_symbol
        (l.kept (codes "DOCUMENT_URI") document_uri_symbol uri_known))
      (later (codes "REQUEST_METHOD") request_method_symbol
        (l.kept (codes "REQUEST_METHOD") request_method_symbol method_known))
      room' (Names-kept s' t (components route) ks later l.names)
      (IsFree-add_route s root route m callback free)
      (endpoint_at-add_route s root route m callback) uri_line method_line
      (same_route ∙ sym (components-parse_route route)) is_method
