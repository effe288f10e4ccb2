-- ===== src/Router/Building.antt =====
-- A router from its constructor on: a run of calls of `add_route` and `remove_route`
-- (src/lib/router.cpp).
use fcgiserver.Prelude.{List, [], ◌∷◌, Bytes, All}
use fcgiserver.Symbols.{SymbolServer}
use fcgiserver.Router.Context.{RequestMethod}
use fcgiserver.Router.{IRouter, SubRoute, new_sub_route}
use fcgiserver.Router.Nodes.{AllNodes, AllBelow}
use fcgiserver.Router.Operations.{add_router, add_route, remove_route}
use fcgiserver.Router.Keeping.{
  Keeps, NodeKeeps, add_route-AllNodes, add_router-AllNodes, remove_route-AllNodes,
}

-- A call that changes a router.
pub data Registration (C : Type 0) : Type 0 where
  adds : (C → C) → Bytes → RequestMethod → Registration C
  mounts : IRouter C → Bytes → Registration C
  removes : Bytes → Registration C

module _ {C : Type 0} where
  abbrev pub register : Registration C → SubRoute C × SymbolServer → SubRoute C × SymbolServer
  register (adds callback route method) (root, s) = add_route callback route method s root
  register (mounts r route) (root, s) = add_router r route s root
  register (removes route) (root, s) =
      let (removed, root', s') = remove_route route s root in (root', s')

  -- `Router::Router`, and the calls in order.
  abbrev pub register_all :
      List (Registration C) → SubRoute C × SymbolServer → SubRoute C × SymbolServer
  register_all [] state = state
  register_all (r ∷ rs) state = register_all rs (register r state)

  module _ (I : C → Type 0) where
    -- What a call registers keeps the property.
    abbrev pub IsKeeping : Registration C → Type 0
    IsKeeping (adds callback route method) = Keeps I callback
    IsKeeping (mounts r route) = (c : C) → I c → I (r c).1
    IsKeeping (removes route) = Unit

    register-AllNodes :
        (r : Registration C) (root : SubRoute C) (s : SymbolServer)
        → IsKeeping r
        → AllNodes (NodeKeeps I) root
        → AllNodes (NodeKeeps I) (register r (root, s)).0
    register-AllNodes (adds callback route method) root s h there =
        add_route-AllNodes I callback route method s root h there
    register-AllNodes (mounts r route) root s h there = add_router-AllNodes I r route s root h there
    register-AllNodes (removes route) root s h there = remove_route-AllNodes I route s root there

    register_all-AllNodes :
        (rs : List (Registration C)) (root : SubRoute C) (s : SymbolServer)
        → All IsKeeping rs
        → AllNodes (NodeKeeps I) root
        → AllNodes (NodeKeeps I) (register_all rs (root, s)).0
    register_all-AllNodes [] root s h there = there
    register_all-AllNodes (r ∷ rs) root s (h, hs) there =
        let (root', s') = register r (root, s) in
        register_all-AllNodes rs root' s' hs (register-AllNodes r root s h there)

    pub built-AllNodes :
        (rs : List (Registration C)) (s : SymbolServer)
        → All IsKeeping rs
        → AllNodes (NodeKeeps I) (register_all rs (new_sub_route, s)).0
    built-AllNodes rs s h =
        register_all-AllNodes rs new_sub_route s h (unfold AllNodes AllBelow in ((tt, tt), tt))
