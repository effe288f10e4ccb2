-- ===== src/Router/Removal.antt =====
-- What `remove_route` does to requests that the wildcard serves (src/lib/router.cpp).
use fcgiserver.Prelude.{◌≡◌, ◌∙◌, ap, refl, false, [], ◌∷◌, Option, none, some, Bytes, eq_refl}
use fcgiserver.Symbols.{Symbol, SymbolServer, lookup}
use fcgiserver.Symbols.Table.{IsConsistent}
use fcgiserver.Symbols.Interning.{internalize-lookup, maybe-lookup}
use fcgiserver.Request.Parse.Route.{IsComponent, path, parse_route-path}
use fcgiserver.Router.Context.{RouteResult, handled, not_found, Context}
use fcgiserver.Router.Path.{components-parse_route}
use fcgiserver.Router.{
  Callback, SubRoute, sub_route, Routes, routes, router, endpoints, new_sub_route, find_endpoint,
  find_route, change_route, change_at, maybe_get_subroute, components, symbols_of, wildcard,
}
use fcgiserver.Router.Operations.{
  is_removed, clear_node, remove_route, visit, conclude, select_endpoint, route_from,
  handle_request, next_subroute, or_route, mark_recursive,
}
use fcgiserver.Router.Tree.{find_route-change_route}
use fcgiserver.Router.Routing.{route_from_step}

remove_route_single :
    {C : Type 0} (s : SymbolServer) (root : SubRoute C) (p : Bytes) (k : Symbol)
    → IsConsistent s
    → IsComponent p
    → lookup p s.index ≡ some k
    → remove_route (path (p ∷ [])) s root
      ≡ (is_removed (k ∷ []) root, change_at (k ∷ []) clear_node root, s)
unfolding remove_route symbols_of
remove_route_single s root p k v filled known =
    let single : components (path (p ∷ [])) ≡ p ∷ [] =
      components-parse_route (path (p ∷ [])) ∙ parse_route-path (p ∷ []) (filled, tt) in
    rw single (rw (internalize-lookup p s k v known))

module _ {C : Type 0} (x : Context C) (s : SymbolServer) (v : IsConsistent s) where
  next_subroute_known :
      (p : Bytes) (k : Symbol) (n : SubRoute C)
      → lookup p s.index ≡ some k
      → next_subroute p s n ≡ or_route (find_route k (routes n)) (find_route wildcard (routes n))
  unfolding maybe_get_subroute
  next_subroute_known p k n known =
      ap (λ sym. or_route (find_route sym (routes n)) (find_route wildcard (routes n)))
        (maybe-lookup p s k v known)

  route_from_chosen :
      (n : SubRoute C) (last : Option (SubRoute C)) (route_result : RouteResult) (c : C)
      (callback : Callback C)
      → router n ≡ none
      → select_endpoint x (x.request_method c) (endpoints n) ≡ some callback
      → route_from x s [] n last route_result c ≡ (handled, callback c)
  unfolding route_from visit conclude
  route_from_chosen (sub_route rs r []) last route_result c callback free chosen =
      absurd (unfold find_endpoint in cc)
  route_from_chosen (sub_route rs r (f ∷ es)) last route_result c callback free chosen =
      rw (free, visit) (rw (chosen, conclude))

  -- Where nothing was registered, nothing is found.
  route_from_new : (c : C) → route_from x s [] new_sub_route none not_found c ≡ (not_found, c)
  unfolding route_from visit conclude
  route_from_new c = refl

-- At a root with routes only, removing a route of one component that is not there returns false, and
-- yet changes what is served: a request for it that the wildcard's callback served, no router being
-- mounted at the wildcard, is not found any more. The table is consistent and knows the component.
pub remove_route_shadows :
    {C : Type 0} (x : Context C) (s : SymbolServer) (rs : Routes C) (n : SubRoute C) (p : Bytes)
    (k : Symbol) (callback : Callback C) (c : C)
    → IsConsistent s
    → IsComponent p
    → lookup p s.index ≡ some k
    → find_route k rs ≡ none
    → find_route wildcard rs ≡ some n
    → router n ≡ none
    → select_endpoint x (x.request_method c) (endpoints n) ≡ some callback
    → x.relative_route c ≡ p ∷ []
    → (handle_request x s (sub_route rs none []) c ≡ (handled, callback c))
      × ((remove_route (path (p ∷ [])) s (sub_route rs none [])).0 ≡ false)
      × (handle_request x s (remove_route (path (p ∷ [])) s (sub_route rs none [])).1 c
          ≡ (not_found, c))
unfolding handle_request change_at find_endpoint
remove_route_shadows x s rs n p k callback c v filled known absent wild free chosen route =
    let root = sub_route rs none [] in
    let root' = change_at (k ∷ []) clear_node root in
    let served : next_subroute p s root ≡ some n =
      next_subroute_known x s v p k root known ∙ rw (absent, wild) in
    let made : find_route k (change_route k clear_node rs) ≡ some new_sub_route =
      find_route-change_route k k clear_node rs ∙ rw (eq_refl k, absent) in
    let shadowed : next_subroute p s root' ≡ some new_sub_route =
      next_subroute_known x s v p k root' known ∙ rw made in
    rw (remove_route_single s root p k v filled known, route)
      (
        route_from_step x s v p [] root n (mark_recursive root none) not_found c refl served
            ∙ route_from_chosen x s v n (mark_recursive n (mark_recursive root none)) not_found c
                callback free chosen,
        unfold is_removed in rw (absent, is_removed),
        route_from_step x s v p [] root' new_sub_route (mark_recursive root' none) not_found c refl
              shadowed
            ∙ route_from_new x s v c,
      )
