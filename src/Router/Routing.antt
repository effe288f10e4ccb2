-- ===== src/Router/Routing.antt =====
-- Requests whose route was registered (src/lib/router.cpp).
use fcgiserver.Prelude.{
  ◌+◌, ◌^◌, ◌<◌, ◌≡◌, ◌∙◌, sym, ap, refl, List, [], ◌∷◌, Option, none, some, Bytes, length,
  equal_iff, eq_refl, arith, Option-cases, inl, inr,
}
use fcgiserver.Symbols.{Symbol, SymbolServer, internalize, lookup}
use fcgiserver.Symbols.Table.{IsConsistent}
use fcgiserver.Symbols.Interning.{internalize-Learns, maybe-lookup}
use fcgiserver.Symbols.Compare.{length-internalize-le}
use fcgiserver.Request.Parse.{parse_route}
use fcgiserver.Router.Context.{RequestMethod, RouteResult, handled, not_found, Context}
use fcgiserver.Router.Path.{components-parse_route}
use fcgiserver.Router.{
  Callback, SubRoute, sub_route, routes, router, find_endpoint, find_route, change_route, change_at,
  maybe_get_subroute, components, symbols_of, wildcard,
}
use fcgiserver.Router.Operations.{
  set_endpoint, add_route, visit, conclude, route_from, handle_request, next_subroute, or_route,
  mark_recursive,
}
use fcgiserver.Router.Tree.{or_new, endpoint_at, endpoint_at-set_endpoint, find_route-change_route}

-- The symbols of the components of a path.
abbrev pub Names : SymbolServer → List Bytes → List Symbol → Type 0
Names s [] [] = Unit
Names s (p ∷ ps) (k ∷ ks) = (lookup p s.index ≡ some k) × Names s ps ks
Names s _ _ = ⊥

pub Names-kept :
    (s s' : SymbolServer) (ps : List Bytes) (ks : List Symbol)
    → ((key : Bytes) (old : Symbol)
        → lookup key s.index ≡ some old
        → lookup key s'.index ≡ some old)
    → Names s ps ks
    → Names s' ps ks
Names-kept s s' [] [] kept h = tt
Names-kept s s' (p ∷ ps) (k ∷ ks) kept (h, hs) = (kept p k h, Names-kept s s' ps ks kept hs)
Names-kept s s' [] (k ∷ ks) kept h = h
Names-kept s s' (p ∷ ps) [] kept h = h

pub record LearnsAll (ps : List Bytes) (s : SymbolServer) : Type 0 where
  pub consistent : IsConsistent (symbols_of ps s).1
  pub names : Names (symbols_of ps s).1 ps (symbols_of ps s).0
  pub kept :
      (key : Bytes) (old : Symbol)
      → lookup key s.index ≡ some old
      → lookup key (symbols_of ps s).1.index ≡ some old

pub symbols_of-LearnsAll :
    (ps : List Bytes) (s : SymbolServer)
    → IsConsistent s
    → length s.strings + length ps < 2 ^ 32
    → LearnsAll ps s
unfolding symbols_of
symbols_of-LearnsAll [] s v room = record { consistent = v; names = tt; kept = λ key old h. h }
symbols_of-LearnsAll (p ∷ ps) s v room =
    let first = internalize-Learns p s v (omega arith) in
    let more =
      symbols_of-LearnsAll ps (internalize p s).1 first.consistent
        (omega (arith, length-internalize-le p s)) in
    record {
      consistent = more.consistent;
      names = (more.kept p (internalize p s).0 first.found, more.names);
      kept = λ key old h. more.kept key old (first.kept key old h);
    }

module _ {C : Type 0} where
  -- No router is mounted on the way along a path.
  abbrev pub IsFree : List Symbol → SubRoute C → Type 0
  IsFree [] n = router n ≡ none
  IsFree (k ∷ path) n = (router n ≡ none) × IsFree path (or_new (find_route k (routes n)))

  IsFree-set_endpoint :
      (path : List Symbol) (m : RequestMethod) (callback : Callback C) (n : SubRoute C)
      → IsFree path n
      → IsFree path (change_at path (set_endpoint m callback) n)
  unfolding change_at
  IsFree-set_endpoint [] m callback (sub_route rs r es) h = h
  IsFree-set_endpoint (k ∷ path) m callback (sub_route rs r es) (h, hs) =
      let change = change_at path (set_endpoint m callback) in
      let e : find_route k (change_route k change rs) ≡ some (change (or_new (find_route k rs))) =
        find_route-change_route k k change rs ∙ rw (eq_refl k) in
      (h, rw e (IsFree-set_endpoint path m callback (or_new (find_route k rs)) hs))

  module _ (x : Context C) (s : SymbolServer) (v : IsConsistent s) where
    -- A round at a node without a router goes to the child, if there is one.
    pub route_from_step :
        (p : Bytes) (ps : List Bytes) (n next : SubRoute C) (last : Option (SubRoute C))
        (route_result : RouteResult) (c : C)
        → router n ≡ none
        → next_subroute p s n ≡ some next
        → route_from x s (p ∷ ps) n last route_result c
          ≡ route_from x s ps next (mark_recursive next last) route_result c
    unfolding route_from visit
    route_from_step p ps n next last route_result c free found =
        rw (free, route_from) (rw (found, route_from))

    next_subroute_found :
        (p : Bytes) (k : Symbol) (n next : SubRoute C)
        → lookup p s.index ≡ some k
        → find_route k (routes n) ≡ some next
        → next_subroute p s n ≡ some next
    unfolding maybe_get_subroute
    next_subroute_found p k n next h found =
        ap (λ sym. or_route (find_route sym (routes n)) (find_route wildcard (routes n)))
          (maybe-lookup p s k v h)
        ∙ rw found

    route_from-endpoint :
        (ps : List Bytes) (ks : List Symbol) (n : SubRoute C) (last : Option (SubRoute C))
        (route_result : RouteResult) (c : C) (callback : Callback C)
        → Names s ps ks
        → IsFree ks n
        → endpoint_at ks (x.request_method c) n ≡ some callback
        → route_from x s ps n last route_result c ≡ (handled, callback c)
    unfolding conclude endpoint_at
    route_from-endpoint [] [] (sub_route rs r []) last route_result c callback _ free e =
        absurd (unfold find_endpoint in cc)
    route_from-endpoint [] [] (sub_route rs r (f ∷ es)) last route_result c callback _ free e =
        unfold route_from visit in rw (free, visit) (rw (e, conclude))
    route_from-endpoint (p ∷ ps) (k ∷ ks) n last route_result c callback (h, hs) (free, frees) e =
        elim (Option-cases (find_route k (routes n))) [
          | inl missing ↦ absurd (ground arith)
          | inr (next, found) ↦
              route_from_step p ps n next last route_result c free
                (next_subroute_found p k n next h found)
              ∙ route_from-endpoint ps ks next (mark_recursive next last) route_result c callback hs
                  (rw found at frees) (rw (found, endpoint_at) at e)
        ]
    route_from-endpoint [] (k ∷ ks) n last route_result c callback h free e = absurd h
    route_from-endpoint (p ∷ ps) [] n last route_result c callback h free e = absurd h

-- A request whose route has symbols with a callback for its method there reaches that callback.
pub handle_request-endpoint_at :
    {C : Type 0} (x : Context C) (s : SymbolServer) (root : SubRoute C) (ps : List Bytes)
    (ks : List Symbol) (callback : Callback C) (c : C)
    → IsConsistent s
    → Names s ps ks
    → IsFree ks root
    → endpoint_at ks (x.request_method c) root ≡ some callback
    → x.relative_route c ≡ ps
    → handle_request x s root c ≡ (handled, callback c)
unfolding handle_request
handle_request-endpoint_at x s root ps ks callback c v known free there same = rw same (
    route_from-endpoint x s v ps ks root (mark_recursive root none) not_found c callback known free
      there)

-- What registering a callback for a route and a method leaves at the route.
pub endpoint_at-add_route :
    {C : Type 0} (s : SymbolServer) (root : SubRoute C) (route : Bytes) (m : RequestMethod)
    (callback : Callback C)
    → endpoint_at (symbols_of (components route) s).0 m (add_route callback route m s root).0
      ≡ some callback
unfolding add_route
endpoint_at-add_route s root route m callback =
    let ks = (symbols_of (components route) s).0 in
    endpoint_at-set_endpoint ks ks m m callback root ∙ rw ((equal_iff ks ks).1 refl, eq_refl)

pub IsFree-add_route :
    {C : Type 0} (s : SymbolServer) (root : SubRoute C) (route : Bytes) (m : RequestMethod)
    (callback : Callback C)
    → IsFree (symbols_of (components route) s).0 root
    → IsFree (symbols_of (components route) s).0 (add_route callback route m s root).0
unfolding add_route
IsFree-add_route s root route m callback =
    IsFree-set_endpoint (symbols_of (components route) s).0 m callback root

-- A callback that is registered for a route and a method is what a request with that route and method
-- runs, and the request is handled, if the symbol table is consistent and has numbers left, and no
-- router is mounted on the way along the route.
pub handle_request-add_route :
    {C : Type 0} (x : Context C) (s : SymbolServer) (root : SubRoute C) (route : Bytes)
    (callback : Callback C) (c : C)
    → IsConsistent s
    → length s.strings + length (components route) < 2 ^ 32
    → IsFree (symbols_of (components route) s).0 root
    → x.relative_route c ≡ parse_route route
    → handle_request x
        (add_route callback route (x.request_method c) s root).1
        (add_route callback route (x.request_method c) s root).0
        c
      ≡ (handled, callback c)
handle_request-add_route x s root route callback c v room free same =
    let m = x.request_method c in
    let l = symbols_of-LearnsAll (components route) s v room in
    let (ks, s') = symbols_of (components route) s in
    unfold add_route in
    handle_request-endpoint_at x s' (add_route callback route m s root).0 (components route) ks
      callback c l.consistent l.names (IsFree-add_route s root route m callback free)
      (endpoint_at-add_route s root route m callback) (same ∙ sym (components-parse_route route))
