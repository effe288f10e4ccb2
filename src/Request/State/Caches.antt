-- ===== src/Request/State/Caches.antt =====
-- The caches of a request: what they hold is what a new request would read (src/lib/request.cpp).
use fcgiserver.Prelude.{
  ◌≡◌, ap, refl, true, false, List, [], ◌∷◌, ◌++◌, Option, Bytes, if_both, if_cases, Bool-cases,
  inl, inr, ◌⊎◌,
}
use fcgiserver.Symbols.{Symbol, SymbolServer}
use fcgiserver.Request.Parse.{Param, parse_route, parse_query}
use fcgiserver.Request.Env.{env_loop, env_value, method_of}
use fcgiserver.Request.State.Loading.{env_map-cases}
use fcgiserver.Request.State.{
  Request, new_request, load_env, env, query_string_symbol, document_uri_symbol,
  request_method_symbol, request_method, full_route, relative_route, swap_relative_route, query,
}

-- The variable of a symbol in the environment of a new request.
abbrev pub variable : List Bytes → SymbolServer → Symbol → Bytes
variable lines s key = env_value key (env_loop lines s []).0

-- A request whose caches hold what a new request with these lines would read.
record IsCached {D L : Type 0} (lines : List Bytes) (s : SymbolServer) (r : Request D L)
    : Type 0 where
  same_lines : r.env_lines ≡ lines
  loaded : ((r.variables ≡ []) × (r.symbols ≡ s)) ⊎ ((r.variables, r.symbols) ≡ env_loop lines s [])
  query_kept :
      r.query_parsed ≡ true → r.query_params ≡ parse_query (variable lines s query_string_symbol)
  route_kept : r.route_parsed ≡ true → r.route ≡ parse_route (variable lines s document_uri_symbol)
  no_query : r.query_parsed ≡ false → r.query_params ≡ []
  no_route : r.route_parsed ≡ false → r.route ≡ []

-- What the caller of a request can ask, and the change of the route by a router.
pub data Access : Type 0 where
  asks_env : Symbol → Access
  asks_method asks_route asks_relative_route asks_query : Access
  swaps_route : List Bytes → Access

module _ {D L : Type 0} where
  abbrev pub access : Access → Request D L → Request D L
  access (asks_env key) r = (env key r).1
  access asks_method r = (request_method r).1
  access asks_route r = (full_route r).1
  access asks_relative_route r = (relative_route r).1
  access asks_query r = (query r).1
  access (swaps_route route) r = (swap_relative_route route r).1

  abbrev pub access_each : List Access → Request D L → Request D L
  access_each [] r = r
  access_each (a ∷ later) r = access_each later (access a r)

  module _ (lines : List Bytes) (s : SymbolServer) where
    load_env-loaded :
        (r : Request D L)
        → IsCached lines s r
        → ((load_env r).variables, (load_env r).symbols) ≡ env_loop lines s []
    unfolding load_env
    load_env-loaded r h = rw h.same_lines (env_map-cases lines s r.variables r.symbols h.loaded)

    load_env-IsCached : (r : Request D L) → IsCached lines s r → IsCached lines s (load_env r)
    load_env-IsCached r h = record {
      same_lines = unfold load_env in h.same_lines;
      loaded = inr (load_env-loaded r h);
      query_kept = unfold load_env in h.query_kept;
      route_kept = unfold load_env in h.route_kept;
      no_query = unfold load_env in h.no_query;
      no_route = unfold load_env in h.no_route;
    }

    env-variable :
        (key : Symbol) (r : Request D L) → IsCached lines s r → (env key r).0 ≡ variable lines s key
    unfolding env
    env-variable key r h = ap (λ p. env_value key p.0) (load_env-loaded r h)

    method-variable :
        (r : Request D L)
        → IsCached lines s r
        → (request_method r).0
          ≡ method_of (variable lines s request_method_symbol) (env_loop lines s []).1
    unfolding request_method env
    method-variable r h =
        ap (λ p. method_of (env_value request_method_symbol p.0) p.1) (load_env-loaded r h)

    full_route-variable :
        (r : Request D L)
        → IsCached lines s r
        → (full_route r).0 ≡ parse_route (variable lines s document_uri_symbol)
    unfolding full_route env
    full_route-variable r h = elim (Bool-cases r.route_parsed) [
      | inl parsed ↦ rw (parsed, full_route) (h.route_kept parsed)
      | inr not_yet ↦
          rw (not_yet, full_route, (load_env-IsCached r h).no_route not_yet)
            (ap parse_route (env-variable document_uri_symbol r h))
    ]

    query-variable :
        (r : Request D L)
        → IsCached lines s r
        → (query r).0 ≡ parse_query (variable lines s query_string_symbol)
    unfolding query env
    query-variable r h = elim (Bool-cases r.query_parsed) [
      | inl parsed ↦ rw (parsed, query) (h.query_kept parsed)
      | inr not_yet ↦
          rw (not_yet, query, (load_env-IsCached r h).no_query not_yet)
            (ap parse_query (env-variable query_string_symbol r h))
    ]

    -- The request with its route parsed now.
    parse-IsCached :
        (r : Request D L)
        → IsCached lines s r
        → r.route_parsed ≡ false
        → IsCached lines s (record (load_env r) {
          route_parsed = true;
          route = (load_env r).route ++ parse_route (env document_uri_symbol r).0;
          relative = (load_env r).route ++ parse_route (env document_uri_symbol r).0;
        })
    unfolding load_env env
    parse-IsCached r h not_yet =
        let h' = load_env-IsCached r h in
        record {
          same_lines = h'.same_lines;
          loaded = h'.loaded;
          query_kept = h'.query_kept;
          route_kept =
              λ _. rw (h'.no_route not_yet) (ap parse_route (env-variable document_uri_symbol r h));
          no_query = h'.no_query;
          no_route = λ unset. absurd (cc);
        }

    full_route-IsCached : (r : Request D L) → IsCached lines s r → IsCached lines s (full_route r).1
    unfolding full_route env
    full_route-IsCached r h =
        if_cases (λ (p : List Bytes × Request D L). IsCached lines s p.1) r.route_parsed
          (r.route, r) _ (λ _. h) (parse-IsCached r h)

    query-IsCached : (r : Request D L) → IsCached lines s r → IsCached lines s (query r).1
    unfolding query env
    query-IsCached r h =
        let h' = load_env-IsCached r h in
        if_cases (λ (p : List Param × Request D L). IsCached lines s p.1) r.query_parsed
          (r.query_params, r) _ (λ _. h)
          (λ not_yet. record {
            same_lines = h'.same_lines;
            loaded = h'.loaded;
            query_kept = λ _.
                rw (h'.no_query not_yet) (ap parse_query (env-variable query_string_symbol r h));
            route_kept = h'.route_kept;
            no_query = λ unset. absurd (cc);
            no_route = h'.no_route;
          })

    access-IsCached :
        (a : Access) (r : Request D L) → IsCached lines s r → IsCached lines s (access a r)
    access-IsCached (asks_env key) r h = unfold env in load_env-IsCached r h
    access-IsCached asks_method r h = unfold env request_method in load_env-IsCached r h
    access-IsCached asks_route r h = full_route-IsCached r h
    access-IsCached asks_relative_route r h =
        unfold relative_route in
        if_both (λ r'. IsCached lines s r') r.route_parsed r (full_route r).1 h
          (full_route-IsCached r h)
    access-IsCached asks_query r h = query-IsCached r h
    access-IsCached (swaps_route route) r h = record {
      same_lines = h.same_lines;
      loaded = h.loaded;
      query_kept = h.query_kept;
      route_kept = h.route_kept;
      no_query = h.no_query;
      no_route = h.no_route;
    }

    access_each-IsCached :
        (accesses : List Access) (r : Request D L)
        → IsCached lines s r
        → IsCached lines s (access_each accesses r)
    access_each-IsCached [] r h = h
    access_each-IsCached (a ∷ later) r h =
        access_each-IsCached later (access a r) (access-IsCached a r h)

-- Whatever was asked of a request before, and in which order, and whatever routers did to its
-- relative route: the environment, the method, the full route and the query are those that its
-- lines tell.
pub access_each-variable :
    {D L : Type 0} (lines : List Bytes) (s : SymbolServer) (icd : D) (lg : Option L)
    (accesses : List Access)
    → let r = access_each accesses (new_request s lines icd lg) in
      ((key : Symbol) → (env key r).0 ≡ variable lines s key)
      × ((request_method r).0
          ≡ method_of (variable lines s request_method_symbol) (env_loop lines s []).1)
      × ((full_route r).0 ≡ parse_route (variable lines s document_uri_symbol))
      × ((query r).0 ≡ parse_query (variable lines s query_string_symbol))
access_each-variable lines s icd lg accesses =
    let fresh = new_request s lines icd lg in
    let r = access_each accesses fresh in
    let new : IsCached lines s fresh = record {
      same_lines = refl;
      loaded = inl (refl, refl);
      query_kept = λ h. (cc);
      route_kept = λ h. (cc);
      no_query = λ _. refl;
      no_route = λ _. refl;
    } in
    let h = access_each-IsCached lines s accesses fresh new in
    (
      λ key. env-variable lines s key r h,
      method-variable lines s r h,
      full_route-variable lines s r h,
      query-variable lines s r h,
    )
