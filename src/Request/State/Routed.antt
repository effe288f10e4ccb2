-- ===== src/Request/State/Routed.antt =====
-- A request as a router sees it (src/lib/request.cpp, src/lib/router.cpp): `handle_request` asks for
-- the relative route first, which parses the route, and changes it only afterwards.
use fcgiserver.Prelude.{◌≡◌, sym, true, List, Bytes, Bool-cases, inl, inr}
use fcgiserver.Request.State.{
  Request, request_method, full_route, relative_route, swap_relative_route,
}
use fcgiserver.Router.Context.{RouteResult, Context}
use fcgiserver.Router.{SubRoute}
use fcgiserver.Router.Operations.{handle_request}

-- A request whose route is parsed.
pub record Routed (D : Type 0) (L : Type 0) : Type 0 where
  pub request : Request D L
  pub is_parsed : request.route_parsed ≡ true

module _ {D L : Type 0} where
  relative_route_parsed :
      (r : Request D L) → r.route_parsed ≡ true → (relative_route r).0 ≡ r.relative
  unfolding relative_route
  relative_route_parsed r h = rw (h, relative_route)

  abbrev pub swap : List Bytes → Routed D L → List Bytes × Routed D L
  swap route c =
      let (old, r) = swap_relative_route route c.request in
      (old, record { request = r; is_parsed = c.is_parsed })

  pub swap-returns :
      (route : List Bytes) (c : Routed D L) → (swap route c).0 ≡ (relative_route c.request).0
  swap-returns route c = sym (relative_route_parsed c.request c.is_parsed)

  pub swap-sets :
      (route : List Bytes) (c : Routed D L) → (relative_route (swap route c).1.request).0 ≡ route
  swap-sets route c = relative_route_parsed (swap route c).1.request c.is_parsed

  -- The interface of the router, by the functions of the request.
  abbrev pub routed_context : Context (Routed D L)
  routed_context = record {
    relative_route = λ c. (relative_route c.request).0;
    swap_relative_route = swap;
    request_method = λ c. (request_method c.request).0;
    swap_returns = swap-returns;
    swap_sets = swap-sets;
  }

  pub relative_route-is_parsed : (r : Request D L) → (relative_route r).1.route_parsed ≡ true
  unfolding relative_route full_route
  relative_route-is_parsed r = elim (Bool-cases r.route_parsed) [
    | inl parsed ↦ rw (parsed, relative_route)
    | inr not_yet ↦ rw (not_yet, relative_route)
  ]

  -- The call of `relative_route` with which the router starts.
  abbrev pub start_route : Request D L → Routed D L
  start_route r = record { request = (relative_route r).1; is_parsed = relative_route-is_parsed r }

  -- `Router::handle_request` on a request, with the symbols as they are then.
  unfoldable pub route_request : SubRoute (Routed D L) → Request D L → RouteResult × Request D L
  route_request root r =
      let c = start_route r in
      let (result, c') = handle_request routed_context c.request.symbols root c in
      (result, c'.request)
