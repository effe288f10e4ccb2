-- ===== src/Router/Keeping/Handling.antt =====
-- `handle_request` of src/lib/router.cpp keeps what the callbacks of the tree keep.
use fcgiserver.Prelude.{
  List, [], ◌∷◌, Option, none, some, Bytes, All, Bool-cases, Option-cases, inl, inr,
}
use fcgiserver.Symbols.{SymbolServer}
use fcgiserver.Router.Context.{
  RequestMethod, catch_all_here, catch_all_recursive, RouteResult, handled, not_found,
  invalid_method, is_result, Context,
}
use fcgiserver.Router.{
  Callback, IRouter, Endpoints, SubRoute, router, endpoints, find_endpoint, has_catch_all_recursive,
}
use fcgiserver.Router.Nodes.{AllNodes, AllNodes-here, IfThere, next_subroute-AllNodes}
use fcgiserver.Router.Dispatch.{Visit-cases}
use fcgiserver.Router.Operations.{
  Visit, returned, goes_on, has_endpoints, select_endpoint, walk, conclude, conclude_recursive,
  route_from, visit, handle_request, next_subroute, mark_recursive, join_result,
}
use fcgiserver.Router.Keeping.{Keeps, RouterKeeps, NodeKeeps, KeepsIfThere, find_endpoint-Keeps}

module _ {C : Type 0} (I : C → Type 0) (x : Context C)
    (swaps : (route : List Bytes) (c : C) → I c → I (x.swap_relative_route route c).1) where
  abbrev StaysIn : Visit C → Type 0
  StaysIn (returned c) = I c
  StaysIn (goes_on result c) = I c

  visit-Keeps :
      (r : Option (IRouter C)) (rest : List Bytes) (route_result : RouteResult) (c : C)
      → RouterKeeps I r
      → I c
      → StaysIn (visit x r rest route_result c)
  unfolding visit
  visit-Keeps none rest route_result c h i = i
  visit-Keeps (some r) rest route_result c h i =
      let (old, c₁) = x.swap_relative_route rest c in
      let (new_result, c₂) = r c₁ in
      let i₂ : I c₂ = h c₁ (swaps rest c i) in
      elim (Bool-cases (is_result (join_result new_result route_result) handled)) [
        | inl done ↦ rw done i₂
        | inr more ↦ rw more (swaps old c₂ i₂)
      ]

  conclude_recursive-Keeps :
      (last : Option (SubRoute C)) (route_result : RouteResult) (c : C)
      → IfThere (NodeKeeps I) last
      → I c
      → I (conclude_recursive x last route_result c).1
  unfolding conclude_recursive
  conclude_recursive-Keeps none route_result c h i = i
  conclude_recursive-Keeps (some n) route_result c h i =
      let endpoint =
        find_endpoint-Keeps I catch_all_recursive (endpoints n)
          (AllNodes-here (NodeKeeps I) n h).1 in
      elim (Bool-cases (is_result route_result not_found)) [
        | inr other ↦ rw other i
        | inl missing ↦ elim (Option-cases (find_endpoint catch_all_recursive (endpoints n))) [
          | inl nothing ↦ rw (missing, nothing, conclude_recursive) i
          | inr (callback, found) ↦
              rw (missing, found, conclude_recursive) ((rw found at endpoint) c i)
        ]
      ]

  select_endpoint-Keeps :
      (m : RequestMethod) (es : Endpoints C)
      → All (λ (e : RequestMethod × Callback C). Keeps I e.1) es
      → KeepsIfThere I (select_endpoint x m es)
  select_endpoint-Keeps m es h =
      let exact = find_endpoint-Keeps I m es h in
      let here = find_endpoint-Keeps I catch_all_here es h in
      elim (Option-cases (find_endpoint m es)) [
        | inr (callback, found) ↦ rw found (rw found at exact)
        | inl nothing ↦ elim (Option-cases (find_endpoint catch_all_here es)) [
          | inr (callback, found) ↦ rw (nothing, found) (rw found at here)
          | inl none_here ↦ rw (nothing, none_here) (find_endpoint-Keeps I catch_all_recursive es h)
        ]
      ]

  conclude-Keeps :
      (n last : Option (SubRoute C)) (route_result : RouteResult) (c : C)
      → IfThere (NodeKeeps I) n
      → IfThere (NodeKeeps I) last
      → I c
      → I (conclude x (walk n last route_result c)).1
  unfolding conclude
  conclude-Keeps none last route_result c h hl i = conclude_recursive-Keeps last route_result c hl i
  conclude-Keeps (some n) last route_result c h hl i =
      let endpoint =
        select_endpoint-Keeps (x.request_method c) (endpoints n)
          (AllNodes-here (NodeKeeps I) n h).1 in
      elim (Bool-cases (has_endpoints (endpoints n))) [
        | inr nothing ↦ rw nothing (conclude_recursive-Keeps last not_found c hl i)
        | inl some_there ↦
            elim (Option-cases (select_endpoint x (x.request_method c) (endpoints n))) [
              | inl wrong ↦
                  rw (some_there, wrong, conclude)
                    (conclude_recursive-Keeps last invalid_method c hl i)
              | inr (callback, found) ↦
                  rw (some_there, found, conclude) ((rw found at endpoint) c i)
            ]
      ]

  mark-Keeps :
      (n : SubRoute C) (last : Option (SubRoute C))
      → AllNodes (NodeKeeps I) n
      → IfThere (NodeKeeps I) last
      → IfThere (NodeKeeps I) (mark_recursive n last)
  mark-Keeps n last h hl = elim (Bool-cases (has_catch_all_recursive n)) [
    | inl marked ↦ rw marked h
    | inr not_marked ↦ rw not_marked hl
  ]

  route_from-Keeps :
      (s : SymbolServer) (ps : List Bytes) (n : SubRoute C) (last : Option (SubRoute C))
      (route_result : RouteResult) (c : C)
      → AllNodes (NodeKeeps I) n
      → IfThere (NodeKeeps I) last
      → I c
      → I (route_from x s ps n last route_result c).1
  unfolding route_from
  route_from-Keeps s [] n last route_result c h hl i =
      let stays = visit-Keeps (router n) [] route_result c (AllNodes-here (NodeKeeps I) n h).0 i in
      elim (Visit-cases (visit x (router n) [] route_result c)) [
        | inl (c', e) ↦ rw (e, route_from) (rw e at stays)
        | inr (result, c', e) ↦
            rw (e, route_from) (conclude-Keeps (some n) last result c' h hl (rw e at stays))
      ]
  route_from-Keeps s (p ∷ ps) n last route_result c h hl i =
      let stays =
        visit-Keeps (router n) (p ∷ ps) route_result c (AllNodes-here (NodeKeeps I) n h).0 i in
      let below = next_subroute-AllNodes (NodeKeeps I) p s n h in
      elim (Visit-cases (visit x (router n) (p ∷ ps) route_result c)) [
        | inl (c', e) ↦ rw (e, route_from) (rw e at stays)
        | inr (result, c', e) ↦ elim (Option-cases (next_subroute p s n)) [
          | inl missing ↦
              rw (e, route_from)
                (rw (missing, route_from)
                  (conclude-Keeps none last result c' tt hl (rw e at stays)))
          | inr (next, found) ↦
              let there = rw found at below in
              rw (e, route_from)
                (rw (found, route_from)
                  (route_from-Keeps s ps next (mark_recursive next last) result c' there
                    (mark-Keeps next last there hl) (rw e at stays)))
        ]
      ]

  pub handle_request-Keeps :
      (s : SymbolServer) (root : SubRoute C) (c : C)
      → AllNodes (NodeKeeps I) root
      → I c
      → I (handle_request x s root c).1
  unfolding handle_request
  handle_request-Keeps s root c h i =
      route_from-Keeps s (x.relative_route c) root (mark_recursive root none) not_found c h
        (mark-Keeps root none h tt) i
