-- ===== src/Server/Pool/Routers.antt =====
-- A server whose router is an object of the class `Router`: src/lib/server.cpp and router.cpp.
use fcgiserver.Prelude.{ℕ, ◌≡◌, true, List, some, Bytes, All, IsByte}
use fcgiserver.Prelude.Int.{ℤ, pos}
use fcgiserver.Symbols.{SymbolServer}
use fcgiserver.Logger.{LogLevel}
use fcgiserver.Request.Response.{CgiData, HeaderMap}
use fcgiserver.Request.State.Routed.{Routed}
use fcgiserver.Router.{new_sub_route}
use fcgiserver.Router.Building.{Registration, register_all, IsKeeping, built-AllNodes}
use fcgiserver.Server.EmptyRouter.{empty_router}
use fcgiserver.Server.Worker.{Shared, Worker, Round, thread_function}
use fcgiserver.Server.Worker.Delivery.{router_handler}
use fcgiserver.Server.Worker.Routes.{CanClose, router_handler-IsWellBehaved}
use fcgiserver.Server.Worker.Loop.{IsServable, ends}
use fcgiserver.Server.Worker.Life.{Lives}
use fcgiserver.Server.Pool.{Event, Server, set_router, add_threads}
use fcgiserver.Server.Pool.Serving.{shared, add_threads-AllServed}

module _ {D L U V : Type 0} (log_message : LogLevel → Bytes → L → L) (cgi : CgiData D)
    (iterate : HeaderMap → HeaderMap) where
  -- Any run of add_route and remove_route makes a router, whose callbacks and mounted routers leave
  -- each request so that it can be answered. A server is given it and adds threads: they start with
  -- this router. If the environments of the requests and the texts of errors are bytes, and other
  -- threads set no router that is not well behaved, each thread serves every request that it accepts,
  -- in order, each with the router and the contexts that it has at that time, until it ends.
  pub register_all-AllServed :
      (registrations : List (Registration (Routed D L))) (table symbols : SymbolServer) (count : ℕ)
      (s : Server D L U V) (tick : V → V) (error_text : ℤ → Bytes) (id : ℕ)
      (rounds : List (Round D L U V))
      → All (IsKeeping CanClose) registrations
      → ((result : ℤ) → All IsByte (error_text result))
      → All IsServable rounds
      → let root = (register_all registrations (new_sub_route, table)).0 in
        (next : Server D L U V) × (events : List Event) × (sh : Shared D L U V) × (last : Worker D L
          U V)
        × (add_threads log_message
              (empty_router log_message cgi iterate)
              count
              (set_router log_message (some (router_handler root)) s)
            ≡ some (true, next, events))
        × (shared symbols next ≡ some sh)
        × (thread_function log_message cgi iterate tick error_text (pos 0) id rounds sh
            ≡ some (ends rounds, last))
        × (sh.router ≡ router_handler root)
        × Lives log_message cgi iterate tick rounds id sh last
  unfolding set_router
  register_all-AllServed registrations table symbols count s tick error_text id rounds keeps bytes
        sound =
      let root = (register_all registrations (new_sub_route, table)).0 in
      add_threads-AllServed log_message cgi iterate symbols count
        (record s { router = some (router_handler root) }) tick error_text id rounds
        (router_handler-IsWellBehaved root (built-AllNodes CanClose registrations table keeps))
        bytes sound
