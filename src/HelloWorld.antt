-- ===== src/HelloWorld.antt =====
-- src/main/main.cpp: the example program, a page that shows the query and the environment of its
-- request, and the calls of `main`. `none` is undefined behaviour in the
-- formatter, or a call that waits for ever: for a thread that does not end, or for a signal.
pub mod Texts
pub mod Writing
pub mod Brackets
pub mod Page
pub mod Shown
pub mod Answering
pub mod Program
pub mod Received
use Prim.Native.Nat.{Ordering}
use fcgiserver.Prelude.{
  Bool, true, false, not, List, [], ◌∷◌, ◌++◌, Option, none, some, Bytes, codes, if◌then◌else◌,
  ◌>>=◌,
}
use fcgiserver.Symbols.{Symbol, SymbolServer, resolve, compare_symbol, startup}
use fcgiserver.Formatter.{GenericFormat}
use fcgiserver.Logger.{LogLevel, info, log}
use fcgiserver.Request.Codec.{query_decode}
use fcgiserver.Request.Env.{EnvMap}
use fcgiserver.Request.Parse.{Param}
use fcgiserver.Request.Response.{CgiData, HeaderMap, Response, set_content_type}
use fcgiserver.Request.State.{Request, load_env, query}
use fcgiserver.Request.State.Routed.{Routed, start_route}
use fcgiserver.Request.Stream.{stream_text, stream_html, stream_format}
use fcgiserver.Router.Context.{RequestMethod}
use fcgiserver.Router.{Callback, SubRoute, new_sub_route}
use fcgiserver.Router.Operations.{add_route}
use fcgiserver.Server.Answer.{Handler, change_response}
use fcgiserver.Server.Worker.Delivery.{router_handler}
use fcgiserver.Server.Signals.{Signal, Mask, wait_for_terminate_signal}
use fcgiserver.Server.Pool.{
  Work, Event, Fcgx, Server, new_server, set_router, add_threads, initialize, finalize,
  destroy_server,
}

-- What is streamed: a text, or a text as HTML content.
pub data Piece : Type 0 where
  streams : Bytes → Piece
  escapes : Bytes → Piece

-- The iteration of a `std::map<Symbol, std::string_view>`: the entries in the order of the symbols.
unfoldable pub insert_entry : SymbolServer → Symbol × Bytes → EnvMap → EnvMap
insert_entry s entry [] = entry ∷ []
insert_entry s entry (other ∷ env) =
    let later = insert_entry s entry env in
    elim (compare_symbol entry.0 other.0 s) [
      | Ordering.lt ↦ entry ∷ other ∷ env
      | Ordering.eq ↦ other ∷ later
      | Ordering.gt ↦ other ∷ later
    ]

unfoldable pub in_symbol_order : SymbolServer → EnvMap → EnvMap
unfolding insert_entry
in_symbol_order s [] = []
in_symbol_order s (entry ∷ env) = insert_entry s entry (in_symbol_order s env)

abbrev pub page_start : List Piece
page_start =
    streams (codes "<!DOCTYPE html>\n")
    ∷ streams (codes "<html><body>\n")
    ∷ streams (codes "<h1>Hello world!</h1>\n")
    ∷ []

-- A row of a table.
abbrev pub row : Bytes → Bytes → List Piece → List Piece
row lhs rhs later =
    streams (codes "<tr><td>")
    ∷ escapes lhs
    ∷ streams (codes "</td><td>")
    ∷ escapes rhs
    ∷ streams (codes "</td></tr>\n")
    ∷ later

abbrev pub table_start : Bytes → List Piece
table_start heading =
    streams heading
    ∷ streams (codes "<table>\n")
    ∷ streams (codes "<thead><th>Key</th><th>Value</th></thead>\n")
    ∷ streams (codes "<tbody>\n")
    ∷ []

abbrev pub table_end : List Piece
table_end = streams (codes "</tbody>\n") ∷ streams (codes "</table>\n") ∷ []

-- The loop over the parameters.
abbrev pub param_rows : List Param → List Piece
param_rows [] = table_end
param_rows ((key, value) ∷ params) = row (query_decode key) (query_decode value) (param_rows params)

-- `if (!params.empty())`
abbrev pub query_table : List Param → List Piece
query_table [] = []
query_table (param ∷ params) = table_start (codes "<h2>Query</h2>") ++ param_rows (param ∷ params)

-- The loop over the environment, and the end of the page.
abbrev pub env_rows : SymbolServer → EnvMap → List Piece
env_rows s [] = table_end ++ streams (codes "</body></html>\n") ∷ []
env_rows s ((key, value) ∷ env) = row (resolve key s) value (env_rows s env)

module _ {D L : Type 0} (cgi : CgiData D) (iterate : HeaderMap → HeaderMap)
    (format : GenericFormat) where
  -- `stream << ...`
  abbrev pub stream_piece : SymbolServer → Piece → Response D L → Option (Response D L)
  stream_piece s (streams text) r = stream_text s cgi iterate format text r
  stream_piece s (escapes content) r = stream_html s cgi iterate format content r

  unfoldable pub stream_pieces : SymbolServer → List Piece → Response D L → Option (Response D L)
  stream_pieces s [] r = some r
  stream_pieces s (piece ∷ pieces) r = stream_piece s piece r >>= stream_pieces s pieces

  abbrev pub show : List Piece → Request D L → Option (Request D L)
  show pieces r = stream_pieces r.symbols pieces r.response >>= λ response.
      some (record r { response = response })

module _ {D L : Type 0} (log_message : LogLevel → Bytes → L → L) (cgi : CgiData D)
    (iterate : HeaderMap → HeaderMap) where
  unfoldable pub hello_world : Request D L → Option (Request D L)
  hello_world r = do
    r₁ ←
        change_response
          (λ s method uri. set_content_type log_message s method uri (codes "text/html")) r
    format ← stream_format r₁.response
    r₂ ← show cgi iterate format page_start r₁
    let (params, r₃) = query r₂
    r₄ ← show cgi iterate format (query_table params) r₃
    r₅ ← show cgi iterate format (table_start (codes "<h2>Environment</h2>")) r₄
    let r₆ = load_env r₅
    show cgi iterate format (env_rows r₆.symbols (in_symbol_order r₆.symbols r₆.variables)) r₆

  abbrev pub or_unchanged : Option (Request D L) → Request D L → Request D L
  or_unchanged none r = r
  or_unchanged (some r') r = r'

  -- The callback as the router calls it. It returns for every request of bytes; `start_route` does
  -- nothing to a request whose route is parsed.
  unfoldable pub hello_callback : Callback (Routed D L)
  hello_callback c = start_route (or_unchanged (hello_world c.request) c.request)

  -- `router->add_route(&hello_world, "/", fcgiserver::RequestMethod::GET)`
  abbrev pub program_router : SubRoute (Routed D L) × SymbolServer
  program_router = add_route hello_callback (codes "/") RequestMethod.get startup new_sub_route

abbrev pub socket_path : Bytes
socket_path = codes "/tmp/fcgiserver.sock"

module _ {D L U V : Type 0} (stops : Work → Bool) where
  -- `return EXIT_FAILURE`, with the destructor of the server.
  abbrev pub give_up : Server D L U V → List Event → Option (Bool × Server D L U V × List Event)
  give_up s events = do
    (s₁, destroying) ← destroy_server stops s
    some (false, s₁, events ++ destroying)

  module _ (log_message : LogLevel → Bytes → L → L) where
    -- `server.logger().log(fcgiserver::LogLevel::Info, ...)`
    abbrev pub log_info : Bytes → Server D L U V → Server D L U V
    log_info message s = record s { logger = log log_message info message s.logger }

    -- From the signal on, with the destructor of the server.
    abbrev pub shut_down : Server D L U V → List Event → Option (Bool × Server D L U V × List Event)
    shut_down s events = do
      (s₁, stopping) ← finalize stops (log_info (codes "Initiating shutdown...") s)
      (s₂, destroying) ← destroy_server stops (log_info (codes "All done!") s₁)
      some (true, s₂, events ++ (stopping ++ destroying))

    module _ (empty_router : Handler D L U V) (arriving : List Signal) (mask : Mask) where
      -- From `server.add_threads(4)` on; the program waits for the signals that arrive.
      unfoldable pub run_threads :
          Server D L U V → List Event → Option (Bool × Server D L U V × List Event)
      run_threads s events = add_threads log_message empty_router 4 s >>= λ p.
          if p.0
          then (wait_for_terminate_signal arriving mask >>= λ _. shut_down p.1 (events ++ p.2))
          else give_up p.1 (events ++ p.2)

      -- `main`, with the router that it sets: whether it succeeds, the server in the end, and what it
      -- asked of the system.
      unfoldable pub run_with :
          Handler D L U V → Fcgx → L → Option (Bool × Server D L U V × List Event)
      run_with router fcgx console =
          let s = set_router log_message (some router) (new_server console) in
          initialize log_message fcgx socket_path s >>= λ p.
          if p.0 then run_threads p.1 p.2 else give_up p.1 p.2

module _ {D L U V : Type 0} (stops : Work → Bool) (log_message : LogLevel → Bytes → L → L)
    (cgi : CgiData D) (iterate : HeaderMap → HeaderMap) (empty_router : Handler D L U V)
    (arriving : List Signal) (mask : Mask) where
  unfoldable pub run_main : Fcgx → L → Option (Bool × Server D L U V × List Event)
  unfolding run_with
  run_main fcgx console =
      run_with stops log_message empty_router arriving mask
        (router_handler (program_router log_message cgi iterate).0) fcgx console
