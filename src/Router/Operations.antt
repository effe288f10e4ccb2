-- ===== src/Router/Operations.antt =====
-- src/lib/router.cpp: `add_route`, `remove_route` and `handle_request`. The locks are not modelled:
-- each call is taken as a whole.
use fcgiserver.Prelude.{
  Bool, true, false, ◌||◌, List, [], ◌∷◌, Option, none, some, Bytes, if◌then◌else◌,
}
use fcgiserver.Symbols.{Symbol, SymbolServer}
use fcgiserver.Router.Context.{
  RequestMethod, catch_all_here, catch_all_recursive, RouteResult, handled, not_found,
  invalid_method, is_result, Context,
}
use fcgiserver.Router.{
  Callback, IRouter, Endpoints, SubRoute, sub_route, routes, router, endpoints, find_endpoint,
  assign_endpoint, find_route, change_at, maybe_get_subroute, has_catch_all_recursive, components,
  symbols_of, wildcard,
}

-- Where the loop of `handle_request` stands: `subroute`, the last node with a recursive catch-all,
-- the result so far and the context.
pub record Walk (C : Type 0) : Type 0 where
  pub subroute : Option (SubRoute C)
  pub last_with_catch_recursive : Option (SubRoute C)
  pub route_result : RouteResult
  pub context : C

-- The loop has returned from `handle_request`, or it goes on.
pub data Visit (C : Type 0) : Type 0 where
  returned : C → Visit C
  goes_on : RouteResult → C → Visit C

-- `if (new_result != NotFound) route_result = new_result`
abbrev pub join_result : RouteResult → RouteResult → RouteResult
join_result new_result old = if is_result new_result not_found then old else new_result

module _ {C : Type 0} where
  abbrev pub set_router : IRouter C → SubRoute C → SubRoute C
  set_router r (sub_route rs old es) = sub_route rs (some r) es

  abbrev pub set_endpoint : RequestMethod → Callback C → SubRoute C → SubRoute C
  set_endpoint method callback (sub_route rs r es) =
      sub_route rs r (assign_endpoint method callback es)

  -- `subroute->router.reset(); subroute->endpoints.clear();`
  abbrev pub clear_node : SubRoute C → SubRoute C
  clear_node (sub_route rs r es) = sub_route rs none []

  abbrev has_router : Option (IRouter C) → Bool
  has_router none = false
  has_router (some _) = true

  abbrev pub has_endpoints : Endpoints C → Bool
  has_endpoints [] = false
  has_endpoints (_ ∷ _) = true

  -- `removed`, for the node where the walk ends; one that the walk makes is empty.
  unfoldable pub is_removed : List Symbol → SubRoute C → Bool
  is_removed [] n = has_router (router n) || has_endpoints (endpoints n)
  is_removed (sym ∷ path) n = elim (find_route sym (routes n)) [
    | none ↦ false
    | some next ↦ is_removed path next
  ]

  -- `add_route` of a router
  unfoldable pub add_router :
      IRouter C → Bytes → SymbolServer → SubRoute C → SubRoute C × SymbolServer
  add_router r route s root =
      let (path, s') = symbols_of (components route) s in (change_at path (set_router r) root, s')

  -- `add_route` of a callback
  unfoldable pub add_route :
      Callback C → Bytes → RequestMethod → SymbolServer → SubRoute C → SubRoute C × SymbolServer
  add_route callback route method s root =
      let (path, s') = symbols_of (components route) s in
      (change_at path (set_endpoint method callback) root, s')

  -- The result is the returned value, the tree and the symbols.
  unfoldable pub remove_route : Bytes → SymbolServer → SubRoute C → Bool × SubRoute C × SymbolServer
  remove_route route s root =
      let (path, s') = symbols_of (components route) s in
      (is_removed path root, change_at path clear_node root, s')

  abbrev pub or_route : Option (SubRoute C) → Option (SubRoute C) → Option (SubRoute C)
  or_route none other = other
  or_route (some n) other = some n

  -- `next`: the child for the component, or else the wildcard's.
  abbrev pub next_subroute : Bytes → SymbolServer → SubRoute C → Option (SubRoute C)
  next_subroute component s n =
      or_route (maybe_get_subroute component s n) (find_route wildcard (routes n))

  abbrev pub mark_recursive : SubRoute C → Option (SubRoute C) → Option (SubRoute C)
  mark_recursive n last = if has_catch_all_recursive n then some n else last

  abbrev pub walk : Option (SubRoute C) → Option (SubRoute C) → RouteResult → C → Walk C
  walk n last route_result c = record {
    subroute = n;
    last_with_catch_recursive = last;
    route_result = route_result;
    context = c;
  }

  module _ (x : Context C) where
    -- `if (subroute->router) { ... }`, where `rest` is what stands from `iter` on.
    unfoldable pub visit : Option (IRouter C) → List Bytes → RouteResult → C → Visit C
    visit none rest route_result c = goes_on route_result c
    visit (some r) rest route_result c =
        let (old, c₁) = x.swap_relative_route rest c in
        let (new_result, c₂) = r c₁ in
        let result = join_result new_result route_result in
        if is_result result handled
        then returned c₂
        else goes_on result (x.swap_relative_route old c₂).1

    -- What follows the loop.
    unfoldable pub conclude_recursive : Option (SubRoute C) → RouteResult → C → RouteResult × C
    conclude_recursive none route_result c = (route_result, c)
    conclude_recursive (some last) route_result c =
        if is_result route_result not_found
        then elim (find_endpoint catch_all_recursive (endpoints last)) [
          | some callback ↦ (handled, callback c)
          | none ↦ (route_result, c)
        ]
        else (route_result, c)

    abbrev or_find : Option (Callback C) → RequestMethod → Endpoints C → Option (Callback C)
    or_find (some callback) method es = some callback
    or_find none method es = find_endpoint method es

    -- The endpoint for the method, or else one of the two catch-alls.
    abbrev pub select_endpoint : RequestMethod → Endpoints C → Option (Callback C)
    select_endpoint method es =
        or_find (or_find (find_endpoint method es) catch_all_here es) catch_all_recursive es

    unfoldable pub conclude : Walk C → RouteResult × C
    unfolding conclude_recursive
    conclude w = elim w.subroute [
      | none ↦ conclude_recursive w.last_with_catch_recursive w.route_result w.context
      | some n ↦
          if has_endpoints (endpoints n)
          then elim (select_endpoint (x.request_method w.context) (endpoints n)) [
            | some callback ↦ (handled, callback w.context)
            | none ↦ conclude_recursive w.last_with_catch_recursive invalid_method w.context
          ]
          else conclude_recursive w.last_with_catch_recursive not_found w.context
    ]

    -- The loop over the components, from a node on, and what follows it.
    unfoldable pub route_from :
        SymbolServer
        → List Bytes
        → SubRoute C
        → Option (SubRoute C)
        → RouteResult
        → C
        → RouteResult × C
    route_from s [] n last route_result c = elim (visit (router n) [] route_result c) [
      | returned c' ↦ (handled, c')
      | goes_on result c' ↦ conclude (walk (some n) last result c')
    ]
    route_from s (p ∷ rest) n last route_result c =
        elim (visit (router n) (p ∷ rest) route_result c) [
          | returned c' ↦ (handled, c')
          | goes_on result c' ↦ elim (next_subroute p s n) [
            | none ↦ conclude (walk none last result c')
            | some next ↦ route_from s rest next (mark_recursive next last) result c'
          ]
        ]

    unfoldable pub handle_request : SymbolServer → SubRoute C → C → RouteResult × C
    unfolding route_from
    handle_request s root c =
        route_from s (x.relative_route c) root (mark_recursive root none) not_found c
