-- ===== src/Request/State.antt =====
-- src/lib/request.cpp: `class RequestPrivate` with its caches of the environment, the route and the
-- query, and the functions that fill and read them. The symbol server is part of the state, as the
-- thread of the request sees it: reading the environment interns the names of the variables.
pub mod Variables
pub mod Loading
pub mod Caches
pub mod Routed
pub mod Delivery
pub mod Texts
use fcgiserver.Prelude.{
  ℕ, zero, suc, Bool, true, false, List, [], ◌∷◌, ◌++◌, Option, none, some, Bytes, if◌then◌else◌,
}
use fcgiserver.Prelude.Int.{ℤ, pos}
use fcgiserver.Symbols.{Symbol, SymbolServer}
use fcgiserver.Request.Parse.{Param, parse_route, parse_query, find_param, parse_port}
use fcgiserver.Request.Response.{CgiData, Response, new_response}
use fcgiserver.Request.Env.{EnvMap, env_map, env_value, method_of, is_do_not_track}
use fcgiserver.Router.Context.{RequestMethod}

pub record Request (D : Type 0) (L : Type 0) : Type 0 where
  pub symbols : SymbolServer
  pub env_lines : List Bytes  -- what `cgi_data.env()` returns
  pub variables : EnvMap
  pub query_parsed : Bool
  pub query_params : List Param
  pub route_parsed : Bool
  pub route : List Bytes
  pub relative : List Bytes
  pub response : Response D L

-- The symbols of symbols.cpp that requests look up.
abbrev pub request_method_symbol : Symbol
request_method_symbol = 6

abbrev pub query_string_symbol : Symbol
query_string_symbol = 8

abbrev pub document_uri_symbol : Symbol
document_uri_symbol = 10

abbrev pub remote_addr_symbol : Symbol
remote_addr_symbol = 12

abbrev pub remote_port_symbol : Symbol
remote_port_symbol = 13

abbrev pub do_not_track_symbol : Symbol
do_not_track_symbol = 15

module _ {D L : Type 0} where
  -- `Request::Request`
  abbrev pub new_request : SymbolServer → List Bytes → D → Option L → Request D L
  new_request s lines icd lg = record {
    symbols = s;
    env_lines = lines;
    variables = [];
    query_parsed = false;
    query_params = [];
    route_parsed = false;
    route = [];
    relative = [];
    response = new_response icd lg;
  }

  -- `Request::env_map()`: the map that it leaves is `variables`.
  unfoldable pub load_env : Request D L → Request D L
  load_env r =
      let (env, s) = env_map r.env_lines r.symbols r.variables in
      record r { symbols = s; variables = env }

  -- `Request::env`
  unfoldable pub env : Symbol → Request D L → Bytes × Request D L
  unfolding load_env
  env key r = let r' = load_env r in (env_value key r'.variables, r')

  abbrev pub request_method_string : Request D L → Bytes × Request D L
  request_method_string = env request_method_symbol

  abbrev pub query_string : Request D L → Bytes × Request D L
  query_string = env query_string_symbol

  abbrev pub document_uri : Request D L → Bytes × Request D L
  document_uri = env document_uri_symbol

  abbrev pub remote_addr : Request D L → Bytes × Request D L
  remote_addr = env remote_addr_symbol

  unfoldable pub request_method : Request D L → RequestMethod × Request D L
  request_method r = let (value, r') = request_method_string r in (method_of value r'.symbols, r')

  unfoldable pub remote_port : Request D L → ℤ × Request D L
  remote_port r = let (value, r') = env remote_port_symbol r in (parse_port value, r')

  unfoldable pub do_not_track : Request D L → Bool × Request D L
  do_not_track r = let (value, r') = env do_not_track_symbol r in (is_do_not_track value, r')

  -- The elements are appended to the cached route.
  unfoldable pub full_route : Request D L → List Bytes × Request D L
  full_route r =
      if r.route_parsed
      then (r.route, r)
      else (let (uri, r') = document_uri r in
          let parsed = r'.route ++ parse_route uri in
          (parsed, record r' { route_parsed = true; route = parsed; relative = parsed }))

  unfoldable pub relative_route : Request D L → List Bytes × Request D L
  relative_route r = let r' = if r.route_parsed then r else (full_route r).1 in (r'.relative, r')

  -- The route that was there is what the caller's variable holds afterwards.
  abbrev pub swap_relative_route : List Bytes → Request D L → List Bytes × Request D L
  swap_relative_route new r = (r.relative, record r { relative = new })

  -- `query()`: the parameters are appended to the cached ones.
  unfoldable pub query : Request D L → List Param × Request D L
  query r =
      if r.query_parsed
      then (r.query_params, r)
      else (let (text, r') = query_string r in
          let params = r'.query_params ++ parse_query text in
          (params, record r' { query_parsed = true; query_params = params }))

  -- `query(key)`
  unfoldable pub query_value : Bytes → Request D L → Option Bytes × Request D L
  query_value key r = let (params, r') = query r in (find_param key params, r')

  -- `Request::read`, of a buffer that is not null.
  unfoldable pub read : CgiData D → ℕ → Request D L → ℤ × Bytes × Request D L
  read cgi zero r = (pos 0, [], r)
  read cgi (suc size) r =
      let (result, bytes, d) = cgi.read_data (suc size) r.response.cgi_data in
      (result, bytes, record r { response = record r.response { cgi_data = d } })
