-- ===== src/Lib.antt =====
-- A model of fcgiserver, a C++ library around FastCGI, with theorems about it.
--
-- A `Server` starts threads that accept requests, and a maintenance thread that makes them tick their
-- contexts. A request comes with an environment and a response. Its route and its parameters are read
-- from the environment (`Request::full_route`, `query`), with the codecs `query_decode`, `utf8_decode`
-- and `utf8_encode`. A `Router` finds the callback for the route and the method in a tree whose edges
-- are symbols, which the `SymbolServer` interns. Callbacks write through formatters, which escape what
-- they are given, and log through a `Logger`, which cuts messages into lines for a callback. What the
-- callback leaves open, the thread answers: the status, the headers and a page with the status.
--
--   Utils                src/lib/utils.cpp: unhex, utf8_to_32, utf32_to_8
--   Request.Codec        src/lib/request.cpp: query_decode, utf8_decode, utf8_encode
--   Request.Parse        src/lib/request.cpp: full_route, query, remote_port, set_content_type
--   Request.Response     src/lib/request.cpp: set_header, send_headers, write, ~Request
--   Request.Env          src/lib/request.cpp: env_map, resolve_method, to_format
--   Request.State        src/lib/request.cpp: the request with its caches, env, full_route, query, read
--   Request.Stream       src/lib/request_stream.cpp; src/lib/request.cpp: write_stream, error_stream
--   Request.Access       src/lib/request.h and request.cpp: the members that read or set one field
--   RequestContext       src/lib/request_context.cpp, request_context_private.h, user_context.cpp
--   LogCallback          src/lib/i_log_callback.cpp: log_request, now
--   FastCgi              src/lib/fast_cgi_data.cpp
--   Server.Answer        src/lib/server.cpp: thread_function, from the router to the end of a request
--   Server.EmptyRouter   src/lib/server.cpp: EmptyRouter
--   Server.Worker        src/lib/server.cpp: thread_function and its loop
--   Server.Ticker        src/lib/server.cpp: thread_tick_function
--   Server.Pool          src/lib/server.cpp: ServerPrivate, initialize, add_threads, finalize
--   Server.Contexts      src/lib/server.cpp: the global context, which the threads share
--   Server.Worker.Signalled  src/lib/server.cpp: thread_function with the signals that arrive
--   Server.Signals       src/lib/server.cpp: sigusr1, sigusr2, wait_for_terminate_signal
--   Formatter            src/lib/generic_formatter.cpp: operator<< of texts and glyphs
--   Formatter.Numbers    src/lib/generic_formatter.cpp: operator<< of integers
--   Formatter.Values     src/lib/generic_formatter.cpp and .h: operator<< of other values, append
--   Formatter.Printf     src/lib/generic_formatter.cpp: vprintf
--   Logger               src/lib/logger.cpp, line_formatter.cpp, console_log_callback.cpp
--   Symbols              src/lib/symbol_server.cpp, symbol.cpp, symbols.cpp
--   Symbols.Operators    src/lib/symbol.h: the operators of Symbol
--   Symbols.Threads      src/lib/symbol_server.cpp: internalize, called by many threads
--   Router               src/lib/router.cpp: SubRoute and the split of a route into components
--   Router.Operations    src/lib/router.cpp: add_route, remove_route, handle_request
--   Router.Context       src/lib/i_router.h, request_method.h and what a router asks of a request
--   Router.Choice        the callback that handle_request chooses, as one function of the tree
--   Router.Keeping       what every callback of a router keeps, the router keeps
--   Router.Building      src/lib/router.cpp: Router::Router and the calls that build a router
--   HelloWorld           src/main/main.cpp: hello_world and main
--   Digits               std::to_chars, std::from_chars and std::to_string of integers
--   Strings              std::string_view: find and substr
--   Prelude              the names of the libraries, lists, bytes and bits
--   Tests                the theorems at concrete inputs
--
-- Texts are lists of bytes, glyphs are natural numbers, and unsigned arithmetic is written with its
-- remainder. A string_view loop that cuts a part off in each round runs on the length as fuel: the part
-- or its separator has at least a byte, so the fuel does not run out before the text does. A write
-- behind the end of a scratch buffer is the result `none`. A callback is a function on a state of its
-- own; a router that is mounted in another is a function from a context to its result and the context.
--
-- The loop of a thread is a function on a list of rounds: a round tells which signals have arrived, what
-- the other threads have changed of the shared state, and how the accept ends. So the loop is as long as
-- its list, without fuel, and the theorems speak of every list. The calls that a program makes of a server
-- are a list too, and what it asks of the system is a list of events. Whether a thread that is joined
-- ends is an answer of the system, and a call that waits for ever is the result `none`.
--
-- Each call of the router and of the console callback is one step, as their mutexes make it. A request
-- is one step for the other threads, except in Server.Contexts, where the requests of all threads
-- interleave; the symbol server is modelled with its two locks. The FastCGI library, the texts of system
-- errors and of floating point numbers, the clock and the calendar, the classes of contexts and the
-- order in which a hash map is walked are parameters. Not modelled: the ownership of memory, and the
-- destructors that only free it.
pub mod Prelude
pub mod Utils
pub mod Request
pub mod Digits
pub mod FastCgi
pub mod Formatter
pub mod HelloWorld
pub mod Strings
pub mod Logger
pub mod Symbols
pub mod Router
pub mod RequestContext
pub mod LogCallback
pub mod Server
pub mod Tests
