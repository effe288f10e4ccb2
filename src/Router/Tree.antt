-- ===== src/Router/Tree.antt =====
-- What the tree of routes holds at a path, and what a change at a path does (src/lib/router.cpp).
use fcgiserver.Prelude.{
  ◌≡◌, ◌∙◌, sym, refl, true, false, ◌&&◌, List, [], ◌∷◌, Option, none, some, equal, ==_iff, ◌==◌,
  if◌then◌else◌, arith, Bool-cases, Option-cases, inl, inr,
}
use fcgiserver.Symbols.{Symbol}
use fcgiserver.Router.Context.{RequestMethod, same_method}
use fcgiserver.Router.{
  Callback, Endpoints, SubRoute, sub_route, Routes, no_routes, route_to, routes, endpoints,
  new_sub_route, find_endpoint, assign_endpoint, find_route, change_route, change_at,
}
use fcgiserver.Router.Operations.{set_endpoint, clear_node}

module _ {C : Type 0} where
  abbrev pub or_new : Option (SubRoute C) → SubRoute C
  or_new none = new_sub_route
  or_new (some n) = n

  pub find_endpoint-assign_endpoint :
      (m m' : RequestMethod) (callback : Callback C) (es : Endpoints C)
      → find_endpoint m' (assign_endpoint m callback es)
        ≡ (if same_method m m' then some callback else find_endpoint m' es)
  unfolding find_endpoint assign_endpoint
  find_endpoint-assign_endpoint m m' callback [] = refl
  find_endpoint-assign_endpoint m m' callback ((k, old) ∷ es) =
      elim (Bool-cases (same_method k m)) [
        | inl here ↦ elim (Bool-cases (same_method k m')) [
          | inl same ↦ let e : same_method m m' ≡ true = ground arith in rw (here, same, e)
          | inr other ↦ let e : same_method m m' ≡ false = ground arith in rw (here, other, e)
        ]
        | inr later ↦ elim (Bool-cases (same_method k m')) [
          | inl same ↦ let e : same_method m m' ≡ false = ground arith in rw (later, same, e)
          | inr other ↦ rw (later, other) (find_endpoint-assign_endpoint m m' callback es)
        ]
      ]

  pub find_route-change_route :
      (k k' : Symbol) (change : SubRoute C → SubRoute C) (rs : Routes C)
      → find_route k' (change_route k change rs)
        ≡ (if k == k' then some (change (or_new (find_route k rs))) else find_route k' rs)
  unfolding find_route change_route
  find_route-change_route k k' change no_routes = refl
  find_route-change_route k k' change (route_to i n rs) = elim (Bool-cases (i == k)) [
    | inl here ↦ elim (Bool-cases (i == k')) [
      | inl same ↦ let e : (k == k') ≡ true = ground arith in rw (here, same, e)
      | inr other ↦ let e : (k == k') ≡ false = ground arith in rw (here, other, e)
    ]
    | inr later ↦ elim (Bool-cases (i == k')) [
      | inl same ↦ let e : (k == k') ≡ false = ground arith in rw (later, same, e)
      | inr other ↦ rw (later, other) (find_route-change_route k k' change rs)
    ]
  ]

  -- The endpoint for a method at a path.
  unfoldable pub endpoint_at : List Symbol → RequestMethod → SubRoute C → Option (Callback C)
  endpoint_at [] m n = find_endpoint m (endpoints n)
  endpoint_at (k ∷ path) m n = elim (find_route k (routes n)) [
    | none ↦ none
    | some next ↦ endpoint_at path m next
  ]

  endpoint_at_new :
      (path : List Symbol) (m : RequestMethod) → endpoint_at path m new_sub_route ≡ none
  unfolding endpoint_at find_endpoint find_route
  endpoint_at_new [] m = refl
  endpoint_at_new (k ∷ path) m = refl

  endpoint_at_next :
      (k : Symbol) (path : List Symbol) (m : RequestMethod) (n : SubRoute C)
      → endpoint_at (k ∷ path) m n ≡ endpoint_at path m (or_new (find_route k (routes n)))
  unfolding endpoint_at
  endpoint_at_next k path m n = elim (Option-cases (find_route k (routes n))) [
    | inl missing ↦ rw (missing, endpoint_at) (sym (endpoint_at_new path m))
    | inr (next, found) ↦ rw (found, endpoint_at)
  ]

  -- What a change at a path does to the endpoints below the first symbol.
  pub endpoint_at-change_at :
      (k k' : Symbol) (p q : List Symbol) (m : RequestMethod) (change : SubRoute C → SubRoute C)
      (n : SubRoute C)
      → endpoint_at (k' ∷ q) m (change_at (k ∷ p) change n) ≡ (
          if k == k'
          then endpoint_at q m (change_at p change (or_new (find_route k' (routes n))))
          else endpoint_at (k' ∷ q) m n)
  unfolding change_at
  endpoint_at-change_at k k' p q m change (sub_route rs r es) =
      let deep = change_at p change in
      let after = sub_route (change_route k deep rs) r es in
      elim (Bool-cases (k == k')) [
        | inl same ↦
            let k_is : k ≡ k' = (==_iff k k').0 same in
            let e : find_route k' (change_route k deep rs)
                ≡ some (deep (or_new (find_route k' rs))) =
              find_route-change_route k k' deep rs ∙ rw (same, k_is) in
            rw same (endpoint_at_next k' q m after ∙ rw e)
        | inr other ↦
            let e : find_route k' (change_route k deep rs) ≡ find_route k' rs =
              find_route-change_route k k' deep rs ∙ rw other in
            rw other (
              endpoint_at_next k' q m after
              ∙ rw e (sym (endpoint_at_next k' q m (sub_route rs r es))))
      ]

  -- Registering a callback at a path sets that endpoint, and leaves the endpoint of every other path
  -- and every other method as it was.
  pub endpoint_at-set_endpoint :
      (p q : List Symbol) (m m' : RequestMethod) (callback : Callback C) (n : SubRoute C)
      → endpoint_at q m' (change_at p (set_endpoint m callback) n)
        ≡ (if equal p q && same_method m m' then some callback else endpoint_at q m' n)
  unfolding change_at equal
  endpoint_at-set_endpoint [] [] m m' callback (sub_route rs r es) =
      unfold endpoint_at in find_endpoint-assign_endpoint m m' callback es
  endpoint_at-set_endpoint [] (k' ∷ q) m m' callback (sub_route rs r es) =
      unfold endpoint_at in refl
  endpoint_at-set_endpoint (k ∷ p) [] m m' callback (sub_route rs r es) = unfold endpoint_at in refl
  endpoint_at-set_endpoint (k ∷ p) (k' ∷ q) m m' callback n =
      let step = endpoint_at-change_at k k' p q m' (set_endpoint m callback) n in
      elim (Bool-cases (k == k')) [
        | inl same ↦
            let below =
              endpoint_at-set_endpoint p q m m' callback (or_new (find_route k' (routes n))) in
            rw same (step ∙ rw same (below ∙ rw (endpoint_at_next k' q m' n)))
        | inr other ↦ rw other (step ∙ rw other)
      ]

  -- Removing what a path leads to removes its endpoints for all methods, and leaves the endpoints of
  -- every other path as they were.
  pub endpoint_at-clear_node :
      (p q : List Symbol) (m : RequestMethod) (n : SubRoute C)
      → endpoint_at q m (change_at p clear_node n) ≡ (if equal p q then none else endpoint_at q m n)
  unfolding change_at equal
  endpoint_at-clear_node [] [] m (sub_route rs r es) = unfold endpoint_at find_endpoint in refl
  endpoint_at-clear_node [] (k' ∷ q) m (sub_route rs r es) = unfold endpoint_at in refl
  endpoint_at-clear_node (k ∷ p) [] m (sub_route rs r es) = unfold endpoint_at in refl
  endpoint_at-clear_node (k ∷ p) (k' ∷ q) m n =
      let step = endpoint_at-change_at k k' p q m clear_node n in
      elim (Bool-cases (k == k')) [
        | inl same ↦
            let below = endpoint_at-clear_node p q m (or_new (find_route k' (routes n))) in
            rw same (step ∙ rw same (below ∙ rw (endpoint_at_next k' q m n)))
        | inr other ↦ rw other (step ∙ rw other)
      ]
