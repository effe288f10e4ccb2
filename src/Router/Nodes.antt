-- ===== src/Router/Nodes.antt =====
-- What holds of every node of a tree of routes (src/lib/router.cpp), and stays so when the tree changes.
use fcgiserver.Prelude.{
  List, [], ◌∷◌, Option, none, some, Bytes, ◌==◌, Bool-cases, Option-cases, inl, inr,
}
use fcgiserver.Symbols.{Symbol, SymbolServer, maybe}
use fcgiserver.Router.{
  IRouter, Endpoints, SubRoute, sub_route, Routes, no_routes, route_to, routes, router, endpoints,
  new_sub_route, find_route, change_route, change_at, maybe_get_subroute, wildcard,
}
use fcgiserver.Router.Operations.{next_subroute}

-- A property of the router and the endpoints of a node.
abbrev pub NodeProperty : Type 0 → Type 1
NodeProperty C = Option (IRouter C) → Endpoints C → Type 0

unfoldable mutual
  pub AllNodes : {C : Type 0} → NodeProperty C → SubRoute C → Type 0
  AllNodes P (sub_route rs r es) = P r es × AllBelow P rs

  pub AllBelow : {C : Type 0} → NodeProperty C → Routes C → Type 0
  AllBelow P no_routes = Unit
  AllBelow P (route_to k n rs) = AllNodes P n × AllBelow P rs

module _ {C : Type 0} (P : NodeProperty C) where
  abbrev pub IfThere : Option (SubRoute C) → Type 0
  IfThere none = Unit
  IfThere (some n) = AllNodes P n

  pub AllNodes-here : (n : SubRoute C) → AllNodes P n → P (router n) (endpoints n)
  unfolding AllNodes
  AllNodes-here (sub_route rs r es) (h, _) = h

  pub AllNodes-below : (n : SubRoute C) → AllNodes P n → AllBelow P (routes n)
  unfolding AllNodes
  AllNodes-below (sub_route rs r es) (_, h) = h

  find_route-AllNodes : (k : Symbol) (rs : Routes C) → AllBelow P rs → IfThere (find_route k rs)
  unfolding find_route AllBelow
  find_route-AllNodes k no_routes h = tt
  find_route-AllNodes k (route_to i n rs) (h, hs) = elim (Bool-cases (i == k)) [
    | inl same ↦ rw same h
    | inr differs ↦ rw differs (find_route-AllNodes k rs hs)
  ]

  pub next_subroute-AllNodes :
      (p : Bytes) (s : SymbolServer) (n : SubRoute C) → AllNodes P n → IfThere (next_subroute p s n)
  unfolding maybe_get_subroute
  next_subroute-AllNodes p s n h =
      let below = AllNodes-below n h in
      let exact = find_route-AllNodes (maybe p s) (routes n) below in
      elim (Option-cases (find_route (maybe p s) (routes n))) [
        | inl nothing ↦ rw nothing (find_route-AllNodes wildcard (routes n) below)
        | inr (next, found) ↦ rw found (rw found at exact)
      ]

  module _ (k : Symbol) (change : SubRoute C → SubRoute C)
      (kept : (n : SubRoute C) → AllNodes P n → AllNodes P (change n)) (empty : P none []) where
    change_route-AllBelow : (rs : Routes C) → AllBelow P rs → AllBelow P (change_route k change rs)
    unfolding change_route AllBelow
    change_route-AllBelow no_routes h = (kept new_sub_route (unfold AllNodes in (empty, tt)), tt)
    change_route-AllBelow (route_to i n rs) (h, hs) = elim (Bool-cases (i == k)) [
      | inl same ↦ rw same (kept n h, hs)
      | inr differs ↦ rw differs (h, change_route-AllBelow rs hs)
    ]

  pub change_at-AllNodes :
      (path : List Symbol) (change : SubRoute C → SubRoute C) (n : SubRoute C)
      → P none []
      → ((n : SubRoute C) → AllNodes P n → AllNodes P (change n))
      → AllNodes P n
      → AllNodes P (change_at path change n)
  unfolding change_at AllNodes
  change_at-AllNodes [] change n empty kept h = kept n h
  change_at-AllNodes (k ∷ path) change (sub_route rs r es) empty kept (h, hs) = (
    h,
    change_route-AllBelow k (change_at path change)
        (λ n below. change_at-AllNodes path change n empty kept below) empty rs hs,
  )
