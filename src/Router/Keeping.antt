-- ===== src/Router/Keeping.antt =====
-- What a router keeps (src/lib/router.cpp): a property of contexts that its callbacks and the routers
-- mounted in it keep.
pub mod Handling
use fcgiserver.Prelude.{
  ◌≡◌, refl, true, false, List, [], ◌∷◌, Option, none, some, Bytes, All, Bool-cases, Option-cases,
  inl, inr,
}
use fcgiserver.Symbols.{Symbol, SymbolServer}
use fcgiserver.Router.Context.{
  RequestMethod, catch_all_here, catch_all_recursive, same_method, RouteResult, handled, not_found,
  invalid_method, is_result, Context,
}
use fcgiserver.Router.{
  Callback, IRouter, Endpoints, SubRoute, sub_route, routes, router, endpoints, new_sub_route,
  find_endpoint, assign_endpoint, change_at, has_catch_all_recursive, components, symbols_of,
}
use fcgiserver.Router.Nodes.{
  NodeProperty, AllNodes, AllNodes-here, IfThere, next_subroute-AllNodes, change_at-AllNodes,
}
use fcgiserver.Router.Dispatch.{Visit-cases}
use fcgiserver.Router.Operations.{
  Visit, returned, goes_on, set_router, set_endpoint, clear_node, add_router, add_route,
  remove_route, has_endpoints, select_endpoint, Walk, walk, conclude, conclude_recursive,
  route_from, visit, handle_request, next_subroute, mark_recursive, join_result,
}

module _ {C : Type 0} (I : C → Type 0) where
  abbrev pub Keeps : Callback C → Type 0
  Keeps callback = (c : C) → I c → I (callback c)

  abbrev pub RouterKeeps : Option (IRouter C) → Type 0
  RouterKeeps none = Unit
  RouterKeeps (some r) = (c : C) → I c → I (r c).1

  abbrev pub NodeKeeps : NodeProperty C
  NodeKeeps r es = RouterKeeps r × All (λ (e : RequestMethod × Callback C). Keeps e.1) es

  abbrev pub KeepsIfThere : Option (Callback C) → Type 0
  KeepsIfThere none = Unit
  KeepsIfThere (some callback) = Keeps callback

  pub find_endpoint-Keeps :
      (m : RequestMethod) (es : Endpoints C)
      → All (λ (e : RequestMethod × Callback C). Keeps e.1) es
      → KeepsIfThere (find_endpoint m es)
  unfolding find_endpoint
  find_endpoint-Keeps m [] h = tt
  find_endpoint-Keeps m ((k, callback) ∷ es) (h, hs) = elim (Bool-cases (same_method k m)) [
    | inl same ↦ rw same h
    | inr differs ↦ rw differs (find_endpoint-Keeps m es hs)
  ]

  assign_endpoint-Keeps :
      (m : RequestMethod) (callback : Callback C) (es : Endpoints C)
      → Keeps callback
      → All (λ (e : RequestMethod × Callback C). Keeps e.1) es
      → All (λ (e : RequestMethod × Callback C). Keeps e.1) (assign_endpoint m callback es)
  unfolding assign_endpoint
  assign_endpoint-Keeps m callback [] h _ = (h, tt)
  assign_endpoint-Keeps m callback ((k, old) ∷ es) h (o, os) = elim (Bool-cases (same_method k m)) [
    | inl same ↦ rw same (h, os)
    | inr differs ↦ rw differs (o, assign_endpoint-Keeps m callback es h os)
  ]

  -- The changes of a router, by what keeps the property.
  pub add_route-AllNodes :
      (callback : Callback C) (route : Bytes) (m : RequestMethod) (s : SymbolServer)
      (root : SubRoute C)
      → Keeps callback
      → AllNodes NodeKeeps root
      → AllNodes NodeKeeps (add_route callback route m s root).0
  unfolding add_route AllNodes
  add_route-AllNodes callback route m s root h hs =
      change_at-AllNodes NodeKeeps (symbols_of (components route) s).0 (set_endpoint m callback)
        root (tt, tt) (λ n. λ there. set_endpoint-Keeps n there) hs
    where
      set_endpoint-Keeps :
          (n : SubRoute C) → AllNodes NodeKeeps n → AllNodes NodeKeeps (set_endpoint m callback n)
      set_endpoint-Keeps (sub_route rs r es) ((hr, he), below) =
          ((hr, assign_endpoint-Keeps m callback es h he), below)

  pub add_router-AllNodes :
      (r : IRouter C) (route : Bytes) (s : SymbolServer) (root : SubRoute C)
      → RouterKeeps (some r)
      → AllNodes NodeKeeps root
      → AllNodes NodeKeeps (add_router r route s root).0
  unfolding add_router AllNodes
  add_router-AllNodes r route s root h hs =
      change_at-AllNodes NodeKeeps (symbols_of (components route) s).0 (set_router r) root (tt, tt)
        (λ n. λ there. set_router-Keeps n there) hs
    where
      set_router-Keeps :
          (n : SubRoute C) → AllNodes NodeKeeps n → AllNodes NodeKeeps (set_router r n)
      set_router-Keeps (sub_route rs old es) ((_, he), below) = ((h, he), below)

  pub remove_route-AllNodes :
      (route : Bytes) (s : SymbolServer) (root : SubRoute C)
      → AllNodes NodeKeeps root
      → AllNodes NodeKeeps (remove_route route s root).1
  unfolding remove_route AllNodes
  remove_route-AllNodes route s root hs =
      change_at-AllNodes NodeKeeps (symbols_of (components route) s).0 clear_node root (tt, tt)
        (λ n. λ there. clear_node-Keeps n there) hs
    where
      clear_node-Keeps : (n : SubRoute C) → AllNodes NodeKeeps n → AllNodes NodeKeeps (clear_node n)
      clear_node-Keeps (sub_route rs r es) (_, below) = ((tt, tt), below)
