-- ===== src/Server/Worker/Delivery.antt =====
-- A request from its accept to its answer, by the class `Router`: src/lib/server.cpp, router.cpp,
-- request.cpp and symbol_server.cpp together.
use fcgiserver.Prelude.{
  ◌+◌, ◌^◌, ◌<◌, ◌≡◌, ◌≢◌, ◌∙◌, ap, refl, true, List, [], ◌∷◌, Option, none, some, Bytes, codes,
  length,
}
use fcgiserver.Symbols.{SymbolServer, lookup}
use fcgiserver.Symbols.Table.{IsConsistent}
use fcgiserver.Logger.{LogLevel}
use fcgiserver.Request.Parse.{parse_route}
use fcgiserver.Request.Response.{CgiData, HeaderMap, find_header, status_symbol}
use fcgiserver.Request.Env.{env_loop, method_of}
use fcgiserver.Request.State.{Request, new_request}
use fcgiserver.Request.State.Texts.{HoldsBytes}
use fcgiserver.Request.State.Variables.{find_line}
use fcgiserver.Request.State.Routed.{Routed, start_route, route_request}
use fcgiserver.Request.State.{document_uri_symbol, request_method_symbol}
use fcgiserver.Request.State.Delivery.{IsLater, route_request-add_route}
use fcgiserver.Router.Context.{RequestMethod, RouteResult, handled}
use fcgiserver.Router.{Callback, SubRoute, components, symbols_of}
use fcgiserver.Router.Operations.{add_route}
use fcgiserver.Router.Routing.{IsFree}
use fcgiserver.Server.Answer.{Outcome, Handler, returns, answer}
use fcgiserver.Server.Answer.Settled.{HasStatus}
use fcgiserver.Server.Answer.Closing.{Answered, answer-Answered}
use fcgiserver.Server.Worker.{Worker, context_for, publish, serve}
use fcgiserver.Server.Worker.Serving.{destroy_sent}

-- An object of the class `Router` as the router of a server; its callbacks leave the contexts.
abbrev pub router_handler : {D L U V : Type 0} → SubRoute (Routed D L) → Handler D L U V
router_handler root c =
    let (result, r) = route_request root c.request in
    some (returns result, record c { request = r })

-- A request that its callback leaves so that it can be answered.
pub record IsClosable {D L : Type 0} (r : Request D L) : Type 0 where
  pub bytes : HoldsBytes r
  pub shows : HasStatus r.response.headers
  pub there : r.response.headers_sent ≡ true → find_header status_symbol r.response.headers ≢ none

module _ {D L U V : Type 0} (log_message : LogLevel → Bytes → L → L) (cgi : CgiData D)
    (iterate : HeaderMap → HeaderMap) where
  -- A request is served, with the answer to what its callback left.
  pub record Delivers (result : RouteResult) (r : Request D L) (w : Worker D L U V)
      (o : Option (Worker D L U V)) : Type 0 where
    pub next : Worker D L U V
    pub returns : o ≡ some next
    pub answered :
        Answered log_message cgi iterate result r
          (answer log_message cgi iterate w.id (Outcome.returns result) r)
    pub finished : next.finished ≡ answered.next.response.cgi_data ∷ w.finished

  serve-Delivers :
      (lines : List Bytes) (d : D) (w : Worker D L U V) (root : SubRoute (Routed D L))
      (result : RouteResult) (r : Request D L)
      → w.shared.router ≡ router_handler root
      → route_request root (new_request w.shared.symbols lines d w.shared.logger) ≡ (result, r)
      → IsClosable r
      → Delivers result r w (serve log_message cgi iterate lines d w)
  unfolding serve
  serve-Delivers lines d w root result r is_router routed closable =
      let c = context_for lines d w in
      let called : w.shared.router c ≡ some (Outcome.returns result, record c { request = r }) =
        ap (λ (f : Handler D L U V). f c) is_router
        ∙ ap
            (λ (p : RouteResult × Request D L).
              some (Outcome.returns p.0, record c { request = p.1 }))
            routed in
      let a =
        answer-Answered log_message cgi iterate w.id (Outcome.returns result) r closable.bytes tt
          closable.shows closable.there in
      rw (called, a.returns, destroy_sent log_message cgi iterate a.next a.sent)
        (record {
          next = publish (record c { request = r }) a.next a.next.response.cgi_data w;
          returns = refl;
          answered = a;
          finished = refl;
        })

  -- A callback is registered for a route and a method, in a table that knows the two variables. Then
  -- a thread whose server has this router, at any later table, serves a request, whose environment
  -- gives a URI with the components of the route and that method, by that callback: the answer is
  -- that of a handled request which the callback left so. This is if the numbers for symbols
  -- suffice, the later table is consistent, no router is mounted on the way, and the callback leaves
  -- a request that holds bytes, whose status, where it set one, has a glyph, and which has a status
  -- where its headers were sent.
  pub serve-add_route :
      (lines : List Bytes) (s : SymbolServer) (root : SubRoute (Routed D L))
      (route uri value : Bytes) (m : RequestMethod) (callback : Callback (Routed D L)) (d : D)
      (w : Worker D L U V)
      → let ks = (symbols_of (components route) s).0 in
        let t = w.shared.symbols in
        let r = (callback (start_route (new_request t lines d w.shared.logger))).request in
        IsConsistent s
        → lookup (codes "DOCUMENT_URI") s.index ≡ some document_uri_symbol
        → lookup (codes "REQUEST_METHOD") s.index ≡ some request_method_symbol
        → length s.strings + length (components route) < 2 ^ 32
        → IsConsistent t
        → IsLater t (add_route callback route m s root).1
        → length t.strings + length lines < 2 ^ 32
        → IsFree ks root
        → find_line (codes "DOCUMENT_URI") lines ≡ some uri
        → find_line (codes "REQUEST_METHOD") lines ≡ some value
        → parse_route uri ≡ parse_route route
        → method_of value (env_loop lines t []).1 ≡ m
        → w.shared.router ≡ router_handler (add_route callback route m s root).0
        → IsClosable r
        → Delivers handled r w (serve log_message cgi iterate lines d w)
  serve-add_route lines s root route uri value m callback d w v uri_known method_known room later_v
        later room' free uri_line method_line same_route is_method router closable =
      let t = w.shared.symbols in
      let routed =
        route_request-add_route lines s t root route uri value m callback d w.shared.logger v
          uri_known method_known room later_v later room' free uri_line method_line same_route
          is_method in
      serve-Delivers lines d w (add_route callback route m s root).0 handled
        (callback (start_route (new_request t lines d w.shared.logger))).request router routed
        closable
