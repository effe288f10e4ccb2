-- ===== src/Server/Pool.antt =====
-- src/lib/server.cpp: `class ServerPrivate`, and the functions by which a program starts and stops its
-- threads. What the FastCGI library and the system answer are parameters, and what is asked of them
-- is a list of events, in order. `none` is undefined behaviour in the
-- formatter, or a thread that is joined and does not end.
pub mod Threads
pub mod Calls
pub mod Opening
pub mod Ending
pub mod Stopping
pub mod Serving
pub mod Routers
use mathlib.Core.List.{map}
use fcgiserver.Prelude.{
  ℕ, zero, suc, ◌+◌, ◌%◌, ◌^◌, Bool, true, false, not, ◌||◌, ◌&&◌, List, [], ◌∷◌, ◌++◌, Option,
  none, some, Bytes, codes, ◌==◌, if◌then◌else◌, ◌>>=◌,
}
use fcgiserver.Prelude.Int.{ℤ, pos, negsuc}
use fcgiserver.Strings.{is_empty}
use fcgiserver.Digits.{print}
use fcgiserver.Formatter.Numbers.{print_int}
use fcgiserver.Logger.{LogLevel, info, error, log, log_stream}
use fcgiserver.Server.Answer.{Handler}

-- What a `std::thread` of the server runs.
pub data Work : Type 0 where
  ticker : Work
  worker : ℕ → Work

-- `std::thread`
pub record Thread : Type 0 where
  pub work : Work
  pub joinable : Bool

-- What the server asks of the system.
pub data Event : Type 0 where
  started killed joined : Work → Event
  shutdown_pending unmasked : Event
  opened : Bytes → Event
  closed : ℤ → Event
  unlinked : Bytes → Event

-- `FCGX_Init`, `FCGX_IsCGI`, `FCGX_OpenSocket` and the text of its error.
pub record Fcgx : Type 0 where
  pub init : ℤ
  pub is_cgi : Bool
  pub open_socket : Bytes → ℤ
  pub open_error : Bytes

-- `class ServerPrivate`; a null pointer and an empty function are `none`.
pub record Server (D : Type 0) (L : Type 0) (U : Type 0) (V : Type 0) : Type 0 where
  pub socket_path : Bytes
  pub socket_fd : ℤ
  pub logger : Option L
  pub router : Option (Handler D L U V)
  pub threads : List Thread
  pub last_thread_id : ℕ
  pub global_context : Option U
  pub create_thread_context : Option (Option U → Option V)
  pub tick_interval : ℕ

abbrev pub thread : Work → Thread
thread work = record { work = work; joinable = true }

-- `Server::Server`, with its console.
abbrev pub new_server : {D L U V : Type 0} → L → Server D L U V
new_server console = record {
  socket_path = [];
  socket_fd = pos 0;
  logger = some console;
  router = none;
  threads = [];
  last_thread_id = 0;
  global_context = none;
  create_thread_context = none;
  tick_interval = 60;
}

-- The loop of `add_threads`: the threads it appends, and `last_thread_id`.
unfoldable pub add_workers : ℕ → ℕ → List Thread × ℕ
add_workers zero last_thread_id = ([], last_thread_id)
add_workers (suc count) last_thread_id =
    let id = (last_thread_id + 1) % 2 ^ 64 in
    let (threads, last) = add_workers count id in (thread (worker id) ∷ threads, last)

-- The maintenance thread, before the first worker.
abbrev pub add_ticker : List Thread → List Thread
add_ticker [] = thread ticker ∷ []
add_ticker (t ∷ threads) = []

-- The two loops of `kill_threads` over the threads that can be joined.
abbrev pub each_joinable : (Work → Event) → List Thread → List Event
each_joinable event [] = []
each_joinable event (t ∷ threads) =
    if t.joinable then event t.work ∷ each_joinable event threads else each_joinable event threads

-- Whether each thread that can be joined ends. `stops` tells which threads end once they are sent
-- SIGUSR1, while the caller holds `threads_lock`.
abbrev pub all_stop : (Work → Bool) → List Thread → Bool
all_stop stops [] = true
all_stop stops (t ∷ threads) = (not t.joinable || stops t.work) && all_stop stops threads

abbrev pub is_zero : ℤ → Bool
is_zero (pos n) = n == 0
is_zero (negsuc n) = false

abbrev pub is_minus_one : ℤ → Bool
is_minus_one (pos n) = false
is_minus_one (negsuc n) = n == 0

module _ {D L U V : Type 0} where
  unfoldable pub set_global_context : Option U → Server D L U V → Server D L U V
  set_global_context new_context s = record s { global_context = new_context }

  unfoldable pub set_thread_context : Option (Option U → Option V) → Server D L U V → Server D L U V
  set_thread_context create s = record s { create_thread_context = create }

  unfoldable pub set_thread_context_tick_interval : ℕ → Server D L U V → Server D L U V
  set_thread_context_tick_interval duration s = record s { tick_interval = duration }

  -- What `kill_threads` does when each of its calls of `join` returns.
  unfoldable pub killed_threads : Server D L U V → Server D L U V × List Event
  killed_threads s =
      (record s { threads = [] }, each_joinable killed s.threads ++ each_joinable joined s.threads)

  -- `none` is that a `join` waits for ever, while `threads_lock` is held.
  unfoldable pub kill_threads :
      (Work → Bool) → Server D L U V → Option (Server D L U V × List Event)
  unfolding killed_threads
  kill_threads stops s = if all_stop stops s.threads then some (killed_threads s) else none

  -- `if (m_private->socket_fd != 0)`
  abbrev pub close_socket : Server D L U V → Server D L U V × List Event
  close_socket s = if is_zero s.socket_fd then (s, []) else (
    record s { socket_fd = pos 0; socket_path = [] },
    closed s.socket_fd ∷ unlinked s.socket_path ∷ [],
  )

  -- `finalize` after its call of `kill_threads`.
  abbrev pub close_after : Server D L U V × List Event → Server D L U V × List Event
  close_after (s, stopped) =
      let (s₁, closing) = close_socket s in (s₁, shutdown_pending ∷ stopped ++ closing)

  unfoldable pub finalized : Server D L U V → Server D L U V × List Event
  unfolding killed_threads
  finalized s = close_after (killed_threads s)

  unfoldable pub finalize : (Work → Bool) → Server D L U V → Option (Server D L U V × List Event)
  unfolding kill_threads
  finalize stops s = kill_threads stops s >>= λ killing. some (close_after killing)

  -- `Server::~Server`
  abbrev pub destroy_server : (Work → Bool) → Server D L U V → Option (Server D L U V × List Event)
  destroy_server stops s = finalize stops s

  module _ (log_message : LogLevel → Bytes → L → L) where
    unfoldable pub set_router : Option (Handler D L U V) → Server D L U V → Server D L U V
    set_router none s = record s {
      logger = log log_message error (codes "Attempted to register an invalid router") s.logger;
    }
    set_router (some router) s = record s { router = some router }

    -- `if (!m_private->router)`, with an `EmptyRouter`.
    abbrev pub ensure_router :
        Handler D L U V → Option (Handler D L U V) → Server D L U V → Server D L U V
    ensure_router empty_router none s = record s {
      router = some empty_router;
      logger = log log_message error (codes "No router provided, adding an empty route") s.logger;
    }
    ensure_router empty_router (some router) s = s

    unfoldable pub add_threads :
        Handler D L U V → ℕ → Server D L U V → Option (Bool × Server D L U V × List Event)
    unfolding add_workers
    add_threads empty_router count s =
        let s₁ = ensure_router empty_router s.router s in
        let (workers, last) = add_workers count s₁.last_thread_id in
        let new_threads = add_ticker s₁.threads ++ workers in
        log_stream log_message info (codes "Starting " ∷ print 10 count ∷ codes " threads" ∷ [])
          s₁.logger
        >>= λ logger. some (
          true,
          record s₁ { logger = logger; threads = s₁.threads ++ new_threads; last_thread_id = last },
          each_joinable started new_threads,
        )

    -- A failure: the message is logged.
    abbrev pub fail :
        List Bytes → List Event → Server D L U V → Option (Bool × Server D L U V × List Event)
    fail texts events s = log_stream log_message error texts s.logger >>= λ logger.
        some (false, record s { logger = logger }, events)

    -- "Running standalone"
    abbrev pub create_socket :
        Fcgx → Bytes → Server D L U V → Option (Bool × Server D L U V × List Event)
    create_socket fcgx socket_path s =
        let sockfd = fcgx.open_socket socket_path in
        let events = unmasked ∷ opened socket_path ∷ [] in
        if is_minus_one sockfd
        then fail (codes "Create socket error: " ∷ fcgx.open_error ∷ []) events s
        else some (true, record s { socket_path = socket_path; socket_fd = sockfd }, events)

    unfoldable pub initialize :
        Fcgx → Bytes → Server D L U V → Option (Bool × Server D L U V × List Event)
    initialize fcgx socket_path s =
        if not (is_zero fcgx.init)
        then fail (codes "Error " ∷ print_int fcgx.init ∷ codes " on FCGX_Init" ∷ []) [] s
        else if fcgx.is_cgi
        then (if is_empty socket_path
            then some (
              false,
              record s {
                logger =
                    log log_message error (codes "Running as CGI but no socket_path given!")
                      s.logger;
              },
              [],
            )
            else create_socket fcgx socket_path s)
        else some (true, record s { socket_fd = pos 0 }, [])
