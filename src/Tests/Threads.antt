-- ===== src/Tests/Threads.antt =====
-- The threads of a server with a router of the class `Router`, and the context that they share.
use fcgiserver.Prelude.{
  All, ℕ, suc, ◌≡◌, refl, true, false, List, [], ◌∷◌, some, none, Bytes, codes, arith, get_elem?,
}
use fcgiserver.Prelude.Int.{pos}
use fcgiserver.Symbols.{startup}
use fcgiserver.Router.Context.{not_found}
use fcgiserver.Server.EmptyRouter.{empty_router}
use fcgiserver.Server.Worker.{Shared, Worker, accepted, interrupted, regular_exit, thread_function}
use fcgiserver.Server.Worker.Loop.{IsServable, ends}
use fcgiserver.Server.Worker.Life.{Lives}
use fcgiserver.Server.Pool.{set_router, Event, Server, add_threads}
use fcgiserver.Server.Pool.Calls.{adds}
use fcgiserver.Server.Pool.Serving.{shared}
use fcgiserver.Tests.Responses.{recorder, keep_message, in_order}
use fcgiserver.Server.Pool.Routers.{register_all-AllServed}
use fcgiserver.Router.{new_sub_route}
use fcgiserver.Router.Context.{RequestMethod}
use fcgiserver.Router.Building.{Registration, adds, mounts, removes, register_all}
use fcgiserver.Request.State.Routed.{Routed}
use fcgiserver.Server.Worker.Delivery.{router_handler}
use fcgiserver.Server.Signals.{Signal, sigint, sighup, sigusr1, sigusr2}
use fcgiserver.Server.Worker.{Accept}
use fcgiserver.Server.Worker.Signalled.{
  Turn, unset, rounds_of, heard, IsServableTurn, thread_function_signalled,
}
use fcgiserver.Server.EmptyRouter.Page.{empty_router-IsWellBehaved}
use fcgiserver.Server.Contexts.{
  Contexts, idle, serving, all_idle, change_thread, begin_request, replace_context,
}
use fcgiserver.Server.Contexts.Published.{
  Reach, starts, begins, replaces, HasPublished, Reach-HasPublished,
}
use fcgiserver.Tests.Serving.{Data, lines, fresh_server, error_text, rounds, calm-IsServable}

sound_rounds : All IsServable rounds
sound_rounds = (
  calm-IsServable (accepted lines []) (ground arith),
  (calm-IsServable interrupted tt, (calm-IsServable regular_exit tt, tt)),
)

-- A router with a route, one that is removed, and a router that is mounted.
abbrev registrations : List (Registration (Routed Data (List Bytes)))
registrations =
    adds (λ c. c) (codes "/a") RequestMethod.get
    ∷ removes (codes "/b")
    ∷ mounts (λ c. (not_found, c)) (codes "/c")
    ∷ []

abbrev registered : Server Data (List Bytes) ℕ ℕ
registered =
    set_router keep_message
      (some (router_handler (register_all registrations (new_sub_route, startup)).0)) fresh_server

register_all-AllServed_example :
    (next : Server Data (List Bytes) ℕ ℕ) × (events : List Event) × (sh : Shared Data
      (List Bytes)
      ℕ
      ℕ)
    × (last : Worker Data (List Bytes) ℕ ℕ) × (add_threads keep_message
          (empty_router keep_message recorder in_order)
          2
          registered
        ≡ some (true, next, events))
    × (shared startup next ≡ some sh)
    × (thread_function keep_message recorder in_order suc error_text (pos 0) 1 rounds sh
        ≡ some (ends rounds, last))
    × (sh.router ≡ router_handler (register_all registrations (new_sub_route, startup)).0)
    × Lives keep_message recorder in_order suc rounds 1 sh last
register_all-AllServed_example =
    register_all-AllServed keep_message recorder in_order registrations startup startup 2
      fresh_server suc error_text 1 rounds (λ c h. h, (tt, (λ c h. h, tt))) (λ result. ground arith)
      sound_rounds

abbrev served_by : Shared Data (List Bytes) ℕ ℕ
served_by = record {
  symbols = startup;
  logger = some [];
  router = empty_router keep_message recorder in_order;
  global_context = none;
  create_thread_context = none;
}

-- SIGINT changes nothing, SIGUSR2 makes the thread tick, and SIGUSR1 ends it.
abbrev turn : List Signal → Accept Data → Turn Data (List Bytes) ℕ ℕ
turn signals result = record { arriving = signals; meanwhile = λ s. s; accept = result }

abbrev turns : List (Turn Data (List Bytes) ℕ ℕ)
turns =
    turn (sigint ∷ []) (accepted lines [])
    ∷ turn (sigusr2 ∷ []) interrupted
    ∷ turn (sighup ∷ sigusr1 ∷ []) (accepted lines [])
    ∷ []

turns-AllServable : All IsServableTurn turns
turns-AllServable = (
  record { textual = ground arith; kept = λ s well. well },
  (
    record { textual = tt; kept = λ s well. well },
    (record { textual = ground arith; kept = λ s well. well }, tt),
  ),
)

ends-turns : ends (heard turns) ≡ true
ends-turns = refl

thread_function_signalled_example :
    (last : Worker Data (List Bytes) ℕ ℕ) × (thread_function keep_message recorder in_order suc
        error_text
        (pos 0)
        1
        (rounds_of turns unset)
        served_by
      ≡ some (ends (heard turns), last))
    × Lives keep_message recorder in_order suc (heard turns) 1 served_by last
thread_function_signalled_example =
    thread_function_signalled keep_message recorder in_order suc error_text 1 turns served_by
      (λ result. ground arith) turns-AllServable
      (empty_router-IsWellBehaved keep_message recorder in_order)

-- A request replaces the context while another one is served.
abbrev both_serve : Contexts ℕ
both_serve = begin_request 2 (begin_request 1 (all_idle none))

abbrev one_replaced : Contexts ℕ
one_replaced = replace_context 1 (some 7) both_serve

one_replaced-Reach : Reach ℕ one_replaced (none ∷ [])
unfolding change_thread
one_replaced-Reach =
    replaces 1 none (some 7) false (begins 2 false (begins 1 false (starts none) refl) idle_still)
      serves
  where
    idle_still : (begin_request 1 (all_idle {U = ℕ} none)).threads 2 ≡ idle false
    idle_still = refl

    serves : both_serve.threads 1 ≡ serving none false
    serves = refl

Reach-HasPublished_example :
    (get_elem? (none ∷ []) 0 ≡ some one_replaced.global_context)
    × ((i : ℕ) → HasPublished {U = ℕ} (none ∷ []) (one_replaced.threads i))
Reach-HasPublished_example = Reach-HasPublished one_replaced (none ∷ []) one_replaced-Reach
