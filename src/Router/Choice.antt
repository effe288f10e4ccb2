-- ===== src/Router/Choice.antt =====
-- A description of which callback a request reaches in a tree without mounted routers, and
-- `handle_request` of src/lib/router.cpp measured against it.
use fcgiserver.Prelude.{
  ◌≡◌, ◌∙◌, ap, refl, List, [], ◌∷◌, Option, none, some, Bytes, arith, Option-cases, inl, inr,
}
use fcgiserver.Symbols.{SymbolServer}
use fcgiserver.Router.Context.{
  RequestMethod, catch_all_here, catch_all_recursive, RouteResult, handled, not_found,
  invalid_method, Context,
}
use fcgiserver.Router.{Callback, Endpoints, SubRoute, sub_route, router, endpoints, find_endpoint}
use fcgiserver.Router.Nodes.{NodeProperty, AllNodes, AllNodes-here, next_subroute-AllNodes}
use fcgiserver.Router.Operations.{
  walk, conclude, conclude_recursive, route_from, visit, handle_request, next_subroute,
  mark_recursive,
}

abbrev pub NoRouter : {C : Type 0} → NodeProperty C
NoRouter r es = r ≡ none

-- What routing comes to: a callback runs, there is nothing for the route, or nothing for its method.
pub data Choice (C : Type 0) : Type 0 where
  runs : (C → C) → Choice C
  missing : Choice C
  wrong_method : Choice C

module _ {C : Type 0} where
  abbrev pub run : Choice C → C → RouteResult × C
  run (runs callback) c = (handled, callback c)
  run missing c = (not_found, c)
  run wrong_method c = (invalid_method, c)

  abbrev chosen : Option (Callback C) → Choice C → Choice C
  chosen (some callback) other = runs callback
  chosen none other = other

  -- What is missing below a node goes to its recursive catch-all.
  abbrev pub or_recursive : Choice C → Endpoints C → Choice C
  or_recursive missing es = chosen (find_endpoint catch_all_recursive es) missing
  or_recursive choice es = choice

  -- At the node where the route ends.
  abbrev pub choose_here : RequestMethod → Endpoints C → Choice C
  choose_here method [] = missing
  choose_here method (e ∷ es) = chosen (find_endpoint method (e ∷ es)) (
      chosen (find_endpoint catch_all_here (e ∷ es))
        (chosen (find_endpoint catch_all_recursive (e ∷ es)) wrong_method))

  -- The callback for a route below a node.
  unfoldable pub choose : SymbolServer → RequestMethod → List Bytes → SubRoute C → Choice C
  choose s method [] n = choose_here method (endpoints n)
  choose s method (p ∷ ps) n = elim (next_subroute p s n) [
    | none ↦ or_recursive missing (endpoints n)
    | some next ↦ or_recursive (choose s method ps next) (endpoints n)
  ]

  -- What a walk has passed, below a choice.
  abbrev or_last : Choice C → Option (SubRoute C) → Choice C
  or_last choice none = choice
  or_last choice (some n) = or_recursive choice (endpoints n)

  or_last-mark :
      (choice : Choice C) (n : SubRoute C) (last : Option (SubRoute C))
      → or_last choice (mark_recursive n last) ≡ or_last (or_recursive choice (endpoints n)) last
  or_last-mark (runs callback) n none = ground arith
  or_last-mark (runs callback) n (some m) = ground arith
  or_last-mark wrong_method n none = ground arith
  or_last-mark wrong_method n (some m) = ground arith
  or_last-mark missing n last =
      elim (Option-cases (find_endpoint catch_all_recursive (endpoints n))) [
        | inl nothing ↦ rw nothing
        | inr (callback, found) ↦ rw found (elim (Option-cases last) [
          | inl at_root ↦ rw (at_root, found)
          | inr (m, passed) ↦ rw (passed, found)
        ])
      ]

  module _ (x : Context C) (s : SymbolServer) where
    conclude_missing :
        (last : Option (SubRoute C)) (c : C)
        → conclude_recursive x last not_found c ≡ run (or_last missing last) c
    unfolding conclude_recursive
    conclude_missing none c = refl
    conclude_missing (some n) c =
        elim (Option-cases (find_endpoint catch_all_recursive (endpoints n))) [
          | inl nothing ↦ rw (nothing, conclude_recursive)
          | inr (callback, found) ↦ rw (found, conclude_recursive)
        ]

    conclude-none :
        (last : Option (SubRoute C)) (c : C)
        → conclude x (walk none last not_found c) ≡ run (or_last missing last) c
    unfolding conclude
    conclude-none last c = conclude_missing last c

    conclude_wrong_method :
        (passed last : Option (SubRoute C)) (c : C)
        → conclude_recursive x passed invalid_method c ≡ run (or_last wrong_method last) c
    unfolding conclude_recursive
    conclude_wrong_method none none c = refl
    conclude_wrong_method none (some m) c = refl
    conclude_wrong_method (some n) none c = refl
    conclude_wrong_method (some n) (some m) c = refl

    or_last-runs :
        (callback : Callback C) (last : Option (SubRoute C))
        → or_last (runs callback) last ≡ runs callback
    or_last-runs callback none = refl
    or_last-runs callback (some n) = refl

    conclude_here :
        (n : SubRoute C) (last : Option (SubRoute C)) (c : C)
        → conclude x (walk (some n) (mark_recursive n last) not_found c)
          ≡ run (or_last (choose_here (x.request_method c) (endpoints n)) last) c
    unfolding conclude
    conclude_here (sub_route rs r []) last c = unfold find_endpoint in conclude_missing last c
    conclude_here (sub_route rs r (e ∷ es)) last c =
        let n = sub_route rs r (e ∷ es) in
        let stays = λ (callback : Callback C). or_last-runs callback last in
        elim (Option-cases (find_endpoint (x.request_method c) (e ∷ es))) [
          | inr (callback, found) ↦ rw (found, conclude) (rw (stays callback))
          | inl no_method ↦ elim (Option-cases (find_endpoint catch_all_here (e ∷ es))) [
            | inr (callback, found) ↦ rw (no_method, found, conclude) (rw (stays callback))
            | inl not_here ↦ elim (Option-cases (find_endpoint catch_all_recursive (e ∷ es))) [
              | inr (callback, found) ↦
                  rw (no_method, not_here, found, conclude) (rw (stays callback))
              | inl nothing ↦
                  rw (no_method, not_here, nothing, conclude)
                    (conclude_wrong_method (mark_recursive n last) last c)
            ]
          ]
        ]

    route_from-choose :
        (ps : List Bytes) (n : SubRoute C) (last : Option (SubRoute C)) (c : C)
        → AllNodes NoRouter n
        → route_from x s ps n (mark_recursive n last) not_found c
          ≡ run (or_last (choose s (x.request_method c) ps n) last) c
    unfolding route_from choose visit
    route_from-choose [] n last c free =
        let here : router n ≡ none = AllNodes-here NoRouter n free in
        rw (here, route_from) (conclude_here n last c)
    route_from-choose (p ∷ ps) n last c free =
        let here : router n ≡ none = AllNodes-here NoRouter n free in
        let below = next_subroute-AllNodes NoRouter p s n free in
        let method = x.request_method c in
        elim (Option-cases (next_subroute p s n)) [
          | inl nothing ↦
              rw (here, route_from)
                (rw (nothing, route_from, choose)
                  (conclude-none (mark_recursive n last) c
                    ∙ ap (λ choice. run choice c) (or_last-mark missing n last)))
          | inr (next, found) ↦
              rw (here, route_from)
                (rw (found, route_from, choose)
                  (route_from-choose ps next (mark_recursive n last) c (rw found at below)
                    ∙ ap (λ choice. run choice c) (or_last-mark (choose s method ps next) n last)))
        ]

  -- A request to a tree in which no router is mounted gets the callback that the description
  -- chooses, with the result of a handled request, or it stays as it is, with the result of a missing
  -- route or a wrong method.
  pub handle_request-choose :
      (x : Context C) (s : SymbolServer) (root : SubRoute C) (c : C)
      → AllNodes NoRouter root
      → handle_request x s root c ≡ run (choose s (x.request_method c) (x.relative_route c) root) c
  unfolding handle_request
  handle_request-choose x s root c free =
      route_from-choose x s (x.relative_route c) root none c free
