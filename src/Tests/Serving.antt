-- ===== src/Tests/Serving.antt =====
-- A server without a router, and its threads.
use fcgiserver.Prelude.{
  ℕ, suc, ◌+◌, ◌%◌, ◌≡◌, refl, true, false, List, [], ◌∷◌, ◌++◌, some, none, Bytes, codes, arith,
  get_elem?, ltb, if◌then◌else◌,
}
use fcgiserver.Prelude.Int.{ℤ, pos}
use fcgiserver.Symbols.{startup}
use fcgiserver.Logger.{debug}
use fcgiserver.RequestContext.{RequestContext}
use fcgiserver.LogCallback.{log_request}
use fcgiserver.LogCallback.Line.{line_text, log_request-line_text}
use fcgiserver.Request.Env.{env_value}
use fcgiserver.Request.Parse.{parse_port}
use fcgiserver.Request.Response.{find_header, header, status_symbol, write_all}
use fcgiserver.Request.Response.Sending.{response_head}
use fcgiserver.Request.State.{
  Request, new_request, load_env, remote_addr_symbol, remote_port_symbol, request_method_symbol,
  document_uri_symbol,
}
use fcgiserver.Request.State.Texts.{HoldsBytes}
use fcgiserver.Router.Context.{handled, not_found}
use fcgiserver.Server.Answer.{returns, throws, route_result, answer}
use fcgiserver.Server.Answer.Report.{reported}
use fcgiserver.Server.Answer.Settled.{HasStatus}
use fcgiserver.Server.Answer.Closing.{Answered, answer-Answered}
use fcgiserver.Prelude.{concat}
use fcgiserver.Server.Answer.Codes.{code_headers, answer-code_text}
use fcgiserver.Server.EmptyRouter.{page, empty_router}
use fcgiserver.Server.EmptyRouter.Shown.{html_header}
use fcgiserver.Server.EmptyRouter.Page.{is_root, empty_router-page}
use fcgiserver.Server.Worker.{
  Shared, Worker, Accept, Round, accepted, interrupted, regular_exit, thread_function,
}
use fcgiserver.Server.Worker.Serving.{IsFresh}
use fcgiserver.Server.Worker.Loop.{IsTextual, IsServable, ends}
use fcgiserver.Server.Worker.Life.{Lives}
use fcgiserver.Server.Ticker.{TickRound, lock_failed, locked, thread_tick_function}
use fcgiserver.Server.Ticker.Turns.{locks, thread_tick_function_turns}
use fcgiserver.Server.Pool.{Event, Fcgx, Server, new_server, finalize, add_threads, initialize}
use fcgiserver.Server.Pool.Threads.{starts, joins}
use fcgiserver.Server.Pool.Calls.{Call, initializes, adds, kills, calls}
use fcgiserver.Server.Pool.Calls.Sound.{IsSound}
use fcgiserver.Server.Pool.Calls.Program.{finalize-calls}
use fcgiserver.Server.Pool.Opening.{succeeds, opens, with_socket, with_failure, initialize-succeeds}
use fcgiserver.Server.Pool.Serving.{shared, router_or, add_threads-AllServed}
use fcgiserver.Tests.Responses.{recorder, keep_message, in_order}

abbrev pub Data : Type 0
Data = List Bytes

abbrev pub lines : List Bytes
lines = codes "REQUEST_METHOD=GET" ∷ codes "DOCUMENT_URI=/" ∷ []

abbrev request : Request Data (List Bytes)
request = new_request startup lines [] (some [])

request-HoldsBytes : HoldsBytes request
request-HoldsBytes = record { lines = ground arith; values = tt; headers = tt }

no_status : HasStatus []
unfolding find_header
no_status status h = absurd (ground arith)

answer-Answered_example :
    Answered keep_message recorder in_order
      (route_result (throws (codes "oops")))
      (reported keep_message 1 (throws (codes "oops")) request)
      (answer keep_message recorder in_order 1 (throws (codes "oops")) request)
answer-Answered_example =
    answer-Answered keep_message recorder in_order 1 (throws (codes "oops")) request
      request-HoldsBytes (ground arith) no_status (λ sent. absurd (ground arith))

answer-code_text_example :
    (next : Request Data (List Bytes)) × (body : List Bytes) × (answer keep_message recorder
        in_order 1
        (returns not_found)
        request
      ≡ some next)
    × (concat body ≡ codes "404")
    × (next.response.cgi_data
        ≡ write_all recorder (response_head startup in_order (code_headers not_found) ++ body) [])
answer-code_text_example =
    answer-code_text keep_message recorder in_order 1 not_found startup lines [] (some [])
      (ground arith)

log_request-line_text_example :
    let env = (load_env request).variables in
    log_request keep_message request []
    ≡ some (
      keep_message debug
          (line_text
            (env_value remote_addr_symbol env)
            (parse_port (env_value remote_port_symbol env))
            (header status_symbol request.response)
            (env_value request_method_symbol env)
            (env_value document_uri_symbol env))
          [],
      load_env request,
    )
log_request-line_text_example = log_request-line_text keep_message request [] request-HoldsBytes

abbrev context : RequestContext Data (List Bytes) ℕ ℕ
context = record {
  thread_id = 1;
  request = request;
  global_context = none;
  thread_context = none;
  replaced_global_context = false;
}

request-IsFresh : IsFresh request
request-IsFresh = record { bytes = request-HoldsBytes; unsent = refl; no_headers = refl }

empty_router-page_example :
    (next : Request Data (List Bytes)) × (empty_router keep_message recorder in_order context
      ≡ some (
        returns (if is_root request then handled else not_found),
        record context { request = next },
      ))
    × (next.response.cgi_data ≡ (
        if is_root request
        then write_all recorder
            (response_head (load_env request).symbols in_order html_header ++ page)
            []
        else []))
empty_router-page_example = empty_router-page keep_message recorder in_order context request-IsFresh

abbrev steady : List TickRound
steady = locked 4 ∷ lock_failed ∷ locked 4 ∷ locked 4 ∷ locked 4 ∷ []

thread_tick_function_turns_example :
    get_elem? (thread_tick_function steady) 3
    ≡ (if ltb 3 (locks steady) then some (1 + 3 % 3) else none)
thread_tick_function_turns_example =
    thread_tick_function_turns 3 steady 3 (omega arith) (omega arith)
      (refl, (tt, (refl, (refl, (refl, tt)))))

abbrev cgi : Fcgx
cgi = record {
  init = pos 0;
  is_cgi = true;
  open_socket = λ path. pos 3;
  open_error = codes "Permission denied";
}

abbrev pub fresh_server : Server Data (List Bytes) ℕ ℕ
fresh_server = new_server []

initialize-succeeds_example :
    initialize keep_message cgi (codes "/tmp/s") fresh_server
    ≡ some (
      succeeds cgi (codes "/tmp/s"),
      if succeeds cgi (codes "/tmp/s")
          then with_socket cgi (codes "/tmp/s") fresh_server
          else with_failure keep_message cgi (codes "/tmp/s") fresh_server,
      opens cgi (codes "/tmp/s"),
    )
initialize-succeeds_example =
    initialize-succeeds keep_message cgi (codes "/tmp/s") fresh_server (ground arith)

abbrev program : List (Call Data (List Bytes) ℕ ℕ)
program = initializes cgi (codes "/tmp/s") ∷ adds 2 ∷ kills (λ work. true) ∷ adds 1 ∷ []

finalize-calls_example :
    (last : Server Data (List Bytes) ℕ ℕ) × (events : List Event) × (next : Server Data
      (List Bytes)
      ℕ
      ℕ)
    × (more : List Event) × (calls keep_message
          (empty_router keep_message recorder in_order)
          program
          (new_server [])
        ≡ some (last, events))
    × IsSound last events
    × (finalize (λ work. true) last ≡ some (next, more))
    × (starts (events ++ more) ≡ joins (events ++ more))
finalize-calls_example =
    finalize-calls keep_message (empty_router keep_message recorder in_order) [] program
      (λ work. true) (ground arith, (tt, ((λ work. refl), (tt, tt)))) (omega arith) (λ work. refl)

abbrev listening : Server Data (List Bytes) ℕ ℕ
listening = record fresh_server { socket_fd = pos 3; socket_path = codes "/tmp/s" }

abbrev pub error_text : ℤ → Bytes
error_text result = codes "Interrupted system call"

abbrev pub calm : Accept Data → Round Data (List Bytes) ℕ ℕ
calm result = record {
  shutdown_triggered = false;
  tick_triggered = true;
  meanwhile = λ s. s;
  accept = result;
}

abbrev pub rounds : List (Round Data (List Bytes) ℕ ℕ)
rounds = calm (accepted lines []) ∷ calm interrupted ∷ calm regular_exit ∷ []

pub calm-IsServable : (result : Accept Data) → IsTextual result → IsServable (calm result)
calm-IsServable result text = record { textual = text; kept = λ s well. well }

add_threads-AllServed_example :
    (next : Server Data (List Bytes) ℕ ℕ) × (events : List Event) × (sh : Shared Data
      (List Bytes)
      ℕ
      ℕ)
    × (last : Worker Data (List Bytes) ℕ ℕ) × (add_threads keep_message
          (empty_router keep_message recorder in_order)
          2
          fresh_server
        ≡ some (true, next, events))
    × (shared startup next ≡ some sh)
    × (thread_function keep_message recorder in_order suc error_text (pos 0) 1 rounds sh
        ≡ some (ends rounds, last))
    × (sh.router ≡ router_or none (empty_router keep_message recorder in_order))
    × Lives keep_message recorder in_order suc rounds 1 sh last
add_threads-AllServed_example =
    add_threads-AllServed keep_message recorder in_order startup 2 fresh_server suc error_text 1
      rounds tt (λ result. ground arith)
      (
        calm-IsServable (accepted lines []) (ground arith),
        (calm-IsServable interrupted tt, (calm-IsServable regular_exit tt, tt)),
      )
