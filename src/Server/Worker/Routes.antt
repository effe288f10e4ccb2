-- ===== src/Server/Worker/Routes.antt =====
-- An object of the class `Router` as the router of a server: src/lib/server.cpp and router.cpp.
use fcgiserver.Prelude.{◌≡◌, refl, List, Bytes, arith}
use fcgiserver.Prelude.{if_both}
use fcgiserver.Request.Response.{find_header}
use fcgiserver.Request.State.{Request, load_env, env, full_route, relative_route}
use fcgiserver.Request.State.Texts.{HoldsBytes, load_env-HoldsBytes}
use fcgiserver.Request.State.Routed.{Routed, routed_context, swap, start_route, route_request}
use fcgiserver.Router.{SubRoute}
use fcgiserver.Router.Nodes.{AllNodes}
use fcgiserver.Router.Keeping.{NodeKeeps}
use fcgiserver.Router.Keeping.Handling.{handle_request-Keeps}
use fcgiserver.Server.Answer.{returns}
use fcgiserver.Server.Worker.Serving.{IsFresh, IsWellBehaved}
use fcgiserver.Server.Worker.Delivery.{router_handler, IsClosable}

module _ {D L : Type 0} where
  -- A request that can be answered, as a router sees it.
  abbrev pub CanClose : Routed D L → Type 0
  CanClose c = IsClosable c.request

  same_response :
      (r r' : Request D L) → HoldsBytes r' → r'.response ≡ r.response → IsClosable r → IsClosable r'
  same_response r r' bytes same h = record {
    bytes = bytes;
    shows = rw same h.shows;
    there = rw same h.there;
  }

  swap-CanClose : (route : List Bytes) (c : Routed D L) → CanClose c → CanClose (swap route c).1
  swap-CanClose route c h = record {
    bytes = record { lines = h.bytes.lines; values = h.bytes.values; headers = h.bytes.headers };
    shows = h.shows;
    there = h.there;
  }

  load_env-IsClosable : (r : Request D L) → IsClosable r → IsClosable (load_env r)
  unfolding load_env
  load_env-IsClosable r h = record {
    bytes = load_env-HoldsBytes r h.bytes;
    shows = h.shows;
    there = h.there;
  }

  full_route-IsClosable : (r : Request D L) → IsClosable r → IsClosable (full_route r).1
  unfolding full_route env
  full_route-IsClosable r h =
      let loaded = load_env-IsClosable r h in
      if_both (λ (p : List Bytes × Request D L). IsClosable p.1) r.route_parsed _ _ h
        (record {
          bytes = record {
            lines = loaded.bytes.lines;
            values = loaded.bytes.values;
            headers = loaded.bytes.headers;
          };
          shows = loaded.shows;
          there = loaded.there;
        })

  start_route-CanClose : (r : Request D L) → IsClosable r → CanClose (start_route r)
  unfolding relative_route
  start_route-CanClose r h =
      if_both IsClosable r.route_parsed r (full_route r).1 h (full_route-IsClosable r h)

  pub route_request-IsClosable :
      (root : SubRoute (Routed D L)) (r : Request D L)
      → AllNodes (NodeKeeps CanClose) root
      → IsClosable r
      → IsClosable (route_request root r).1
  unfolding route_request
  route_request-IsClosable root r keeps h =
      let c = start_route r in
      handle_request-Keeps CanClose routed_context swap-CanClose c.request.symbols root c keeps
        (start_route-CanClose r h)

  fresh-IsClosable : (r : Request D L) → IsFresh r → IsClosable r
  unfolding find_header
  fresh-IsClosable r h = record {
    bytes = h.bytes;
    shows = rw h.no_headers (λ status given. absurd (ground arith));
    there = λ sent. absurd (cc (sent, h.unsent));
  }

module _ {D L U V : Type 0} where
  -- A router whose callbacks and mounted routers leave each request so that it can be answered.
  pub router_handler-IsWellBehaved :
      (root : SubRoute (Routed D L))
      → AllNodes (NodeKeeps CanClose) root
      → IsWellBehaved {D = D} {L = L} {U = U} {V = V} (router_handler root)
  router_handler-IsWellBehaved root keeps c fresh =
      let (result, r) = route_request root c.request in
      let closable =
        route_request-IsClosable root c.request keeps (fresh-IsClosable c.request fresh) in
      record {
        outcome = returns result;
        next = record c { request = r };
        returns = refl;
        text = tt;
        bytes = closable.bytes;
        shows = closable.shows;
        there = closable.there;
      }
