-- ===== src/Server/Worker.antt =====
-- src/lib/server.cpp: `thread_function`, and what of `class ServerPrivate` it works on. The data of a
-- request (`FCGX_Accept_r`, `FastCgiData`) and the signals that a thread gets are what a round of its
-- loop is given. `none` is undefined behaviour, of the router or in the formatter.
pub mod Serving
pub mod Loop
pub mod Life
pub mod Delivery
pub mod Routes
pub mod Signalled
use fcgiserver.Prelude.{
  ℕ, zero, Bool, true, false, List, [], ◌∷◌, Option, none, some, Bytes, codes, if◌then◌else◌, ◌>>=◌,
}
use fcgiserver.Prelude.Int.{ℤ, pos}
use fcgiserver.Digits.{print}
use fcgiserver.Formatter.Numbers.{print_int}
use fcgiserver.Symbols.{SymbolServer}
use fcgiserver.Logger.{LogLevel, debug, error, log_stream}
use fcgiserver.RequestContext.{RequestContext}
use fcgiserver.Request.Env.{env_value}
use fcgiserver.Request.Response.{CgiData, HeaderMap, destroy}
use fcgiserver.Request.State.{Request, new_request, request_method_symbol, document_uri_symbol}
use fcgiserver.Server.Answer.{Outcome, Handler, answer}

-- What the threads of a server share.
pub record Shared (D : Type 0) (L : Type 0) (U : Type 0) (V : Type 0) : Type 0 where
  pub symbols : SymbolServer
  pub logger : Option L
  pub router : Handler D L U V
  pub global_context : Option U
  pub create_thread_context : Option (Option U → Option V)

-- A thread, with the data of the requests that it has finished, newest first.
pub record Worker (D : Type 0) (L : Type 0) (U : Type 0) (V : Type 0) : Type 0 where
  pub id : ℕ
  pub shared : Shared D L U V
  pub thread_context : Option V
  pub replaced_global_context : Bool
  pub finished : List D

-- What `FCGX_Accept_r` returns: 0 with a request, -EINTR, -9999, or another error.
pub data Accept (D : Type 0) : Type 0 where
  accepted : List Bytes → D → Accept D
  interrupted : Accept D
  regular_exit : Accept D
  failed : ℤ → Accept D

-- `shutdown_triggered` and `tick_triggered`, as the round finds them, what other threads change while
-- it waits, and the result of its accept.
pub record Round (D : Type 0) (L : Type 0) (U : Type 0) (V : Type 0) : Type 0 where
  pub shutdown_triggered : Bool
  pub tick_triggered : Bool
  pub meanwhile : Shared D L U V → Shared D L U V
  pub accept : Accept D

module _ {D L U V : Type 0} where
  abbrev pub start : ℕ → Shared D L U V → Worker D L U V
  start id s = record {
    id = id;
    shared = s;
    thread_context = (s.create_thread_context >>= λ create. create s.global_context);
    replaced_global_context = false;
    finished = [];
  }

  -- A thread without a request.
  abbrev pub unstarted : ℕ → Shared D L U V → Worker D L U V
  unstarted id s = record (start id s) { thread_context = none }

  -- What the router is given.
  abbrev pub context_for : List Bytes → D → Worker D L U V → RequestContext D L U V
  context_for lines d w = record {
    thread_id = w.id;
    request = new_request w.shared.symbols lines d w.shared.logger;
    global_context = w.shared.global_context;
    thread_context = w.thread_context;
    replaced_global_context = w.replaced_global_context;
  }

  -- "Process context updates", and the end of the request.
  abbrev pub publish : RequestContext D L U V → Request D L → D → Worker D L U V → Worker D L U V
  publish c r d w = record w {
    shared = record w.shared {
      symbols = r.symbols;
      logger = r.response.logger;
      global_context =
          if c.replaced_global_context then c.global_context else w.shared.global_context;
    };
    thread_context = c.thread_context;
    replaced_global_context = false;
    finished = d ∷ w.finished;
  }

  abbrev pub tick_if : (V → V) → Bool → Worker D L U V → Worker D L U V
  tick_if tick tick_triggered w = record w {
    thread_context =
        if tick_triggered then (w.thread_context >>= λ v. some (tick v)) else w.thread_context;
  }

  -- The thread when its accept returns.
  abbrev pub wake : (V → V) → Round D L U V → Worker D L U V → Worker D L U V
  wake tick round w =
      let w' = tick_if tick round.tick_triggered w in
      record w' { shared = round.meanwhile w'.shared }

  module _ (log_message : LogLevel → Bytes → L → L) where
    abbrev pub say : LogLevel → List Bytes → Worker D L U V → Option (Worker D L U V)
    say level texts w = log_stream log_message level texts w.shared.logger >>= λ logger.
        some (record w { shared = record w.shared { logger = logger } })

    abbrev pub say_finished : Bool × Worker D L U V → Option (Bool × Worker D L U V)
    say_finished (false, w) = some (false, w)
    say_finished (true, w) =
        say debug (codes "Thread #" ∷ print 10 w.id ∷ codes " finished" ∷ []) w >>= λ w'.
        some (true, w')

    module _ (cgi : CgiData D) (iterate : HeaderMap → HeaderMap) where
      -- From the router to the destructor of the request.
      unfoldable pub serve : List Bytes → D → Worker D L U V → Option (Worker D L U V)
      serve lines d w = do
        (outcome, c) ← w.shared.router (context_for lines d w)
        r ← answer log_message cgi iterate w.id outcome c.request
        d' ←
            destroy log_message r.symbols (env_value request_method_symbol r.variables)
              (env_value document_uri_symbol r.variables) cgi iterate r.response
        some (publish c r d' w)

      module _ (tick : V → V) (error_text : ℤ → Bytes) where
        -- The loop; false is that it still runs after these rounds.
        unfoldable pub thread_loop :
            List (Round D L U V) → Worker D L U V → Option (Bool × Worker D L U V)
        thread_loop [] w = some (false, w)
        thread_loop (round ∷ rounds) w =
            if round.shutdown_triggered then some (true, w) else elim round.accept [
              | accepted lines d ↦ serve lines d (wake tick round w) >>= thread_loop rounds
              | interrupted ↦ thread_loop rounds (wake tick round w)
              | regular_exit ↦ some (true, wake tick round w)
              | failed result ↦
                  say error
                    (codes "Error "
                      ∷ print_int result
                      ∷ codes " on FCGX_Accept_r: "
                      ∷ error_text result
                      ∷ [])
                    (wake tick round w)
                  >>= λ w'. some (true, w')
            ]

        -- From the result of `FCGX_InitRequest` on.
        unfoldable pub thread_function :
            ℤ → ℕ → List (Round D L U V) → Shared D L U V → Option (Bool × Worker D L U V)
        unfolding thread_loop
        thread_function (pos zero) id rounds s =
            say debug (codes "Thread #" ∷ print 10 id ∷ codes " started" ∷ []) (start id s)
            >>= thread_loop rounds
            >>= say_finished
        thread_function result id rounds s =
            say error
              (codes "Error "
                ∷ print_int result
                ∷ codes " on FCGX_InitRequest: "
                ∷ error_text result
                ∷ [])
              (unstarted id s)
            >>= λ w. some (true, w)
