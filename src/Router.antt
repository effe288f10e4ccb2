-- ===== src/Router.antt =====
-- src/lib/router.cpp, router.h, i_router.h and request_method.h: the tree of routes, its changes, and
-- the dispatch of a request. A callback is a function on the context, and a router that is mounted
-- in another is a function that returns its result and the context. Neither throws here.
pub mod Context
pub mod Nodes
pub mod Choice
pub mod Keeping
pub mod Building
pub mod Path
pub mod Tree
pub mod Operations
pub mod Routing
pub mod Dispatch
pub mod Removal
use fcgiserver.Prelude.{
  ℕ, zero, suc, Bool, true, false, ◌||◌, not, List, [], ◌∷◌, ◌++◌, Option, none, some, Bytes, take,
  drop, length, ◌==◌, if◌then◌else◌,
}
use fcgiserver.Strings.{find, before, is_empty}
use fcgiserver.Symbols.{Symbol, SymbolServer, symbol, maybe}
use fcgiserver.Router.Context.{RequestMethod, catch_all_recursive, same_method, RouteResult}

-- `std::map<RequestMethod, Callback>`
module _ (C : Type 0) where
  abbrev pub Callback : Type 0
  Callback = C → C

  abbrev pub IRouter : Type 0
  IRouter = C → RouteResult × C

  abbrev pub Endpoints : Type 0
  Endpoints = List (RequestMethod × (C → C))

mutual
  -- `struct SubRoute`: its routes, its router and its endpoints.
  pub data SubRoute (C : Type 0) : Type 0 where
    sub_route :
        Routes C → Option (C → RouteResult × C) → List (RequestMethod × (C → C)) → SubRoute C

  pub data Routes (C : Type 0) : Type 0 where
    no_routes : Routes C
    route_to : Symbol → SubRoute C → Routes C → Routes C

module _ {C : Type 0} where
  abbrev pub routes : SubRoute C → Routes C
  routes (sub_route rs r es) = rs

  abbrev pub router : SubRoute C → Option (IRouter C)
  router (sub_route rs r es) = r

  abbrev pub endpoints : SubRoute C → Endpoints C
  endpoints (sub_route rs r es) = es

  abbrev pub new_sub_route : SubRoute C
  new_sub_route = sub_route no_routes none []

  -- `endpoints.find(method)`
  unfoldable pub find_endpoint : RequestMethod → Endpoints C → Option (Callback C)
  find_endpoint method [] = none
  find_endpoint method ((m, callback) ∷ es) =
      if same_method m method then some callback else find_endpoint method es

  -- `endpoints[method] = callback`
  unfoldable pub assign_endpoint : RequestMethod → Callback C → Endpoints C → Endpoints C
  assign_endpoint method callback [] = (method, callback) ∷ []
  assign_endpoint method callback ((m, old) ∷ es) =
      if same_method m method
      then (m, callback) ∷ es
      else (m, old) ∷ assign_endpoint method callback es

  -- `routes.find(symbol)`
  unfoldable pub find_route : Symbol → Routes C → Option (SubRoute C)
  find_route sym no_routes = none
  find_route sym (route_to s n rs) = if s == sym then some n else find_route sym rs

  -- A change of what `get_or_create_subroute` returns.
  unfoldable pub change_route : Symbol → (SubRoute C → SubRoute C) → Routes C → Routes C
  change_route sym change no_routes = route_to sym (change new_sub_route) no_routes
  change_route sym change (route_to s n rs) =
      if s == sym then route_to s (change n) rs else route_to s n (change_route sym change rs)

  abbrev pub with_routes : (Routes C → Routes C) → SubRoute C → SubRoute C
  with_routes change (sub_route rs r es) = sub_route (change rs) r es

  -- The walk by `get_or_create_subroute`, and a change of the node where it ends.
  unfoldable pub change_at : List Symbol → (SubRoute C → SubRoute C) → SubRoute C → SubRoute C
  change_at [] change n = change n
  change_at (sym ∷ path) change n = with_routes (change_route sym (change_at path change)) n

  unfoldable pub maybe_get_subroute : Bytes → SymbolServer → SubRoute C → Option (SubRoute C)
  maybe_get_subroute component s n = find_route (maybe component s) (routes n)

  abbrev is_some : Option (Callback C) → Bool
  is_some none = false
  is_some (some _) = true

  abbrev pub has_catch_all_recursive : SubRoute C → Bool
  has_catch_all_recursive n = is_some (find_endpoint catch_all_recursive (endpoints n))

-- `find_route_start`; also the skip of `find_first_not_of('/', end)`.
unfoldable pub skip_slashes : Bytes → Bytes
skip_slashes [] = []
skip_slashes (c ∷ route) = if c == b'/' then skip_slashes route else c ∷ route

-- `route.substr(end)` at the slash that was found, or nothing.
abbrev pub from_slash : Option ℕ → Bytes → Bytes
from_slash none route = []
from_slash (some end) route = drop end route

-- `split_first_component`: the component, and what is left behind the slashes after it.
unfoldable pub split_first_component : Bytes → Bytes × Bytes
split_first_component route =
    let end = find b'/' route in (before end route, skip_slashes (from_slash end route))

-- `while (!remaining.empty())` with the length as fuel, since a component is not empty.
unfoldable pub components_loop : ℕ → Bytes → List Bytes
components_loop zero remaining = []
components_loop (suc fuel) [] = []
components_loop (suc fuel) (c ∷ remaining) =
    let (component, rest) = split_first_component (c ∷ remaining) in
    component ∷ components_loop fuel rest

unfoldable pub components : Bytes → List Bytes
components route =
    let remaining = skip_slashes route in components_loop (length remaining) remaining

-- Each component becomes a `Symbol`.
unfoldable pub symbols_of : List Bytes → SymbolServer → List Symbol × SymbolServer
symbols_of [] s = ([], s)
symbols_of (p ∷ ps) s =
    let (sym, s') = symbol p s in let (path, s'') = symbols_of ps s' in (sym ∷ path, s'')

-- `symbols::wildcard`, the last symbol of symbols.cpp.
abbrev pub wildcard : Symbol
wildcard = 26
