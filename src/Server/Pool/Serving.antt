-- ===== src/Server/Pool/Serving.antt =====
-- The threads of a server serve with its router (src/lib/server.cpp).
use mathlib.Core.List.{map}
use fcgiserver.Prelude.{
  ℕ, ◌≡◌, refl, true, List, [], ◌∷◌, ◌++◌, Option, none, some, Bytes, codes, All, IsByte, concat,
  ◌>>=◌, arith,
}
use fcgiserver.Prelude.Int.{ℤ, pos}
use fcgiserver.Digits.{print}
use fcgiserver.Symbols.{SymbolServer}
use fcgiserver.Logger.{LogLevel, info, error, log}
use fcgiserver.Logger.Stream.{recoded, log_stream-log}
use fcgiserver.Request.Response.{CgiData, HeaderMap}
use fcgiserver.Request.State.Texts.{print-IsByte}
use fcgiserver.Server.Answer.{Handler}
use fcgiserver.Server.EmptyRouter.{empty_router}
use fcgiserver.Server.EmptyRouter.Page.{empty_router-IsWellBehaved}
use fcgiserver.Server.Worker.{Shared, Worker, Round, thread_function}
use fcgiserver.Server.Worker.Serving.{IsWellBehaved}
use fcgiserver.Server.Worker.Loop.{IsServable, ends}
use fcgiserver.Server.Worker.Life.{Lives, thread_function-Lives}
use fcgiserver.Server.Pool.{
  Event, started, Thread, Server, add_ticker, add_workers, each_joinable, add_threads,
}

-- What a thread of the server works on; a server without a router has none.
abbrev pub shared : {D L U V : Type 0} → SymbolServer → Server D L U V → Option (Shared D L U V)
shared symbols s = s.router >>= λ router. some (record {
  symbols = symbols;
  logger = s.logger;
  router = router;
  global_context = s.global_context;
  create_thread_context = s.create_thread_context;
})

abbrev added_threads : {D L U V : Type 0} → ℕ → Server D L U V → List Thread
added_threads count s = add_ticker s.threads ++ (add_workers count s.last_thread_id).0

abbrev with_threads :
    {D L U V : Type 0} → ℕ → Handler D L U V → Option L → Server D L U V → Server D L U V
with_threads count router logger s = record s {
  router = some router;
  logger = logger;
  threads = s.threads ++ added_threads count s;
  last_thread_id = (add_workers count s.last_thread_id).1;
}

abbrev shared_with :
    {D L U V : Type 0} → SymbolServer → Handler D L U V → Option L → Server D L U V → Shared D L U V
shared_with symbols router logger s = record {
  symbols = symbols;
  logger = logger;
  router = router;
  global_context = s.global_context;
  create_thread_context = s.create_thread_context;
}

-- The router that was set, if any, is well behaved.
abbrev pub HasGoodRouter : {D L U V : Type 0} → Option (Handler D L U V) → Type 0
HasGoodRouter none = Unit
HasGoodRouter (some router) = IsWellBehaved router

-- The router that was set, or else this one.
abbrev pub router_or :
    {D L U V : Type 0} → Option (Handler D L U V) → Handler D L U V → Handler D L U V
router_or none other = other
router_or (some router) other = router

module _ {D L U V : Type 0} (log_message : LogLevel → Bytes → L → L) (cgi : CgiData D)
    (iterate : HeaderMap → HeaderMap) where
  -- The server after `add_threads`, with the router that its threads use.
  record Ready (symbols : SymbolServer) (count : ℕ) (s : Server D L U V) : Type 0 where
    next : Server D L U V
    events : List Event
    returns :
        add_threads log_message (empty_router log_message cgi iterate) count s
        ≡ some (true, next, events)
    sh : Shared D L U V
    there : shared symbols next ≡ some sh
    routed : sh.router ≡ router_or s.router (empty_router log_message cgi iterate)
    well : IsWellBehaved sh.router

  add_threads-Ready :
      (symbols : SymbolServer) (count : ℕ) (s : Server D L U V) (router : Option (Handler D L U V))
      → s.router ≡ router
      → HasGoodRouter router
      → Ready symbols count s
  unfolding add_threads
  add_threads-Ready symbols count s router set good =
      let digits = print-IsByte count in
      let texts = codes "Starting " ∷ print 10 count ∷ codes " threads" ∷ [] in
      let said = λ (lg : Option L). log_stream-log log_message info texts lg (ground arith) in
      elim router as (λ o. s.router ≡ o → HasGoodRouter o → Ready symbols count s) [
        | none ↦ λ e _.
            let router' = empty_router log_message cgi iterate in
            let message =
              log log_message error (codes "No router provided, adding an empty route") s.logger in
            let logger = log log_message info (concat (map recoded texts)) message in
            record {
              next = with_threads count router' logger s;
              events = each_joinable started (added_threads count s);
              returns = rw (e, said message);
              sh = shared_with symbols router' logger s;
              there = refl;
              routed = rw e;
              well = empty_router-IsWellBehaved log_message cgi iterate;
            }
        | some router' ↦ λ e good'.
            let logger = log log_message info (concat (map recoded texts)) s.logger in
            record {
              next = with_threads count router' logger s;
              events = each_joinable started (added_threads count s);
              returns = rw (e, said s.logger);
              sh = shared_with symbols router' logger s;
              there = refl;
              routed = rw e;
              well = good';
            }
      ]
        set good

  -- Threads that are added start with the router that was set, if that is well behaved, or else with
  -- the empty router. If the environments of the requests and the texts of errors are bytes, and other
  -- threads set no router that is not well behaved, a thread serves every request that it accepts, in
  -- order, each with the router and the contexts that it has at that time, until it ends, and it ends
  -- where it is told to or its accept fails or says so.
  pub add_threads-AllServed :
      (symbols : SymbolServer) (count : ℕ) (s : Server D L U V) (tick : V → V)
      (error_text : ℤ → Bytes) (id : ℕ) (rounds : List (Round D L U V))
      → HasGoodRouter s.router
      → ((result : ℤ) → All IsByte (error_text result))
      → All IsServable rounds
      → (next : Server D L U V) × (events : List Event) × (sh : Shared D L U V) × (last : Worker D L
          U V)
        × (add_threads log_message (empty_router log_message cgi iterate) count s
            ≡ some (true, next, events))
        × (shared symbols next ≡ some sh)
        × (thread_function log_message cgi iterate tick error_text (pos 0) id rounds sh
            ≡ some (ends rounds, last))
        × (sh.router ≡ router_or s.router (empty_router log_message cgi iterate))
        × Lives log_message cgi iterate tick rounds id sh last
  add_threads-AllServed symbols count s tick error_text id rounds good bytes sound =
      let a = add_threads-Ready symbols count s s.router refl good in
      let (last, runs, lives) =
        thread_function-Lives log_message cgi iterate tick error_text id rounds a.sh bytes sound
          a.well in
      (a.next, a.events, a.sh, last, a.returns, a.there, runs, a.routed, lives)
