-- ===== src/Tests/Routes.antt =====
-- A tree with two routes, and a request that keeps its route and what its callbacks wrote.
use fcgiserver.Prelude.{
  ◌≡◌, refl, ◌&&◌, List, [], ◌∷◌, none, some, false, Bytes, codes, arith, equal, length,
  if◌then◌else◌,
}
use fcgiserver.Strings.{find}
use fcgiserver.Symbols.Compare.{startup-IsConsistent}
use fcgiserver.Request.Parse.Route.{path}
use fcgiserver.Router.Removal.{remove_route_shadows}
use fcgiserver.Symbols.{Symbol, empty_server, startup, lookup}
use fcgiserver.Symbols.Table.{empty_server-IsConsistent}
use fcgiserver.Request.Parse.{parse_route}
use fcgiserver.Router.Context.{RequestMethod, handled, not_found, same_method, Context}
use fcgiserver.Router.{
  Callback, IRouter, SubRoute, new_sub_route, sub_route, no_routes, Routes, route_to, wildcard,
  endpoints, find_route, find_endpoint, maybe_get_subroute, components, components_loop,
  skip_slashes, split_first_component, symbols_of, change_at,
}
use fcgiserver.Router.Operations.{
  add_route, set_endpoint, remove_route, visit, conclude, select_endpoint, handle_request,
}
use fcgiserver.Router.Nodes.{AllNodes}
use fcgiserver.Router.Choice.{NoRouter, run, choose, handle_request-choose}
use fcgiserver.Router.Tree.{endpoint_at, endpoint_at-set_endpoint}
use fcgiserver.Router.Routing.{IsFree, handle_request-add_route}
use fcgiserver.Router.Dispatch.{handle_request-relative_route}

record TestRequest : Type 0 where
  route : List Bytes
  written : Bytes

abbrev test_context : Context TestRequest
test_context = record {
  relative_route = λ c. c.route;
  swap_relative_route = λ new c. (c.route, record c { route = new });
  request_method = λ c. RequestMethod.get;
  swap_returns = λ new c. refl;
  swap_sets = λ new c. refl;
}

abbrev hello : Callback TestRequest
hello c = record c { written = codes "hello" }

abbrev users_request : TestRequest
users_request = record { route = codes "api" ∷ codes "users" ∷ []; written = [] }

abbrev users : Bytes
users = codes "/api//users/"

users_room : length (components users) ≡ 2
unfolding components components_loop skip_slashes split_first_component find
users_room = refl

users_route : users_request.route ≡ parse_route users
unfolding parse_route
users_route = refl

new-IsFree : (path : List Symbol) → IsFree path (new_sub_route {C = TestRequest})
unfolding find_route
new-IsFree [] = refl
new-IsFree (k ∷ path) = (refl, new-IsFree path)

handle_request-add_route_example :
    handle_request test_context
      (add_route hello users RequestMethod.get empty_server new_sub_route).1
      (add_route hello users RequestMethod.get empty_server new_sub_route).0
      users_request
    ≡ (handled, hello users_request)
handle_request-add_route_example =
    handle_request-add_route test_context empty_server new_sub_route users hello users_request
      empty_server-IsConsistent (omega (arith, users_room))
      (new-IsFree (symbols_of (components users) empty_server).0) users_route

endpoint_at-set_endpoint_example :
    endpoint_at
      (3 ∷ [])
      RequestMethod.get
      (change_at (3 ∷ []) (set_endpoint RequestMethod.get hello) new_sub_route)
    ≡ (if equal (3 ∷ []) (3 ∷ []) && same_method RequestMethod.get RequestMethod.get
        then some hello
        else endpoint_at (3 ∷ []) RequestMethod.get new_sub_route)
endpoint_at-set_endpoint_example =
    endpoint_at-set_endpoint (3 ∷ []) (3 ∷ []) RequestMethod.get RequestMethod.get hello
      new_sub_route

-- A router that spoils the route and does not handle the request.
abbrev refuse : IRouter TestRequest
refuse c = (not_found, record c { route = [] })

abbrev refusing : SubRoute TestRequest
refusing = sub_route no_routes (some refuse) []

users_refused : (handle_request test_context empty_server refusing users_request).0 ≡ not_found
unfolding handle_request visit maybe_get_subroute find_route conclude find_endpoint
users_refused = refl

handle_request-relative_route_example :
    (handle_request test_context empty_server refusing users_request).1.route ≡ users_request.route
handle_request-relative_route_example =
    handle_request-relative_route test_context empty_server refusing users_request
      (ground (arith, users_refused))

abbrev any_node : SubRoute TestRequest
any_node = sub_route no_routes none ((RequestMethod.get, hello) ∷ [])

abbrev any_routes : Routes TestRequest
any_routes = route_to wildcard any_node no_routes

abbrev api_request : TestRequest
api_request = record { route = codes "api" ∷ []; written = [] }

api_known : lookup (codes "api") startup.index ≡ some 25
unfolding lookup startup
api_known = refl

api_absent : find_route 25 any_routes ≡ none
unfolding find_route
api_absent = refl

any_found : find_route wildcard any_routes ≡ some any_node
unfolding find_route
any_found = refl

hello_chosen : select_endpoint test_context RequestMethod.get (endpoints any_node) ≡ some hello
unfolding find_endpoint fcgiserver.Router.Context.number
hello_chosen = refl

remove_route_shadows_example :
    (handle_request test_context startup (sub_route any_routes none []) api_request
      ≡ (handled, hello api_request))
    × ((remove_route (path (codes "api" ∷ [])) startup (sub_route any_routes none [])).0 ≡ false)
    × (handle_request test_context startup
          (remove_route (path (codes "api" ∷ [])) startup (sub_route any_routes none [])).1
          api_request
        ≡ (not_found, api_request))
remove_route_shadows_example =
    remove_route_shadows test_context startup any_routes any_node (codes "api") 25 hello api_request
      startup-IsConsistent (ground arith) api_known api_absent any_found refl hello_chosen refl

hello_router-NoRouter :
    AllNodes NoRouter (add_route hello users RequestMethod.get empty_server new_sub_route).0
unfolding add_route change_at fcgiserver.Router.change_route symbols_of components components_loop
    skip_slashes split_first_component find AllNodes
hello_router-NoRouter = (refl, ((refl, ((refl, tt), tt)), tt))

handle_request-choose_example :
    let (root, s) = add_route hello users RequestMethod.get empty_server new_sub_route in
    handle_request test_context s root users_request
    ≡ run (choose s RequestMethod.get users_request.route root) users_request
handle_request-choose_example =
    let (root, s) = add_route hello users RequestMethod.get empty_server new_sub_route in
    handle_request-choose test_context s root users_request hello_router-NoRouter
