-- ===== src/Server/Pool/Calls.antt =====
-- What a program calls of a server, in any order (src/lib/server.cpp).
pub mod Sound
pub mod Steps
pub mod Program
use fcgiserver.Prelude.{ℕ, zero, ◌+◌, Bool, List, [], ◌∷◌, ◌++◌, Option, none, some, Bytes, ◌>>=◌}
use fcgiserver.Logger.{LogLevel}
use fcgiserver.Server.Answer.{Handler}
use fcgiserver.Server.Pool.{
  Work, Event, Fcgx, Server, set_global_context, set_thread_context,
  set_thread_context_tick_interval, set_router, kill_threads, finalize, add_threads, initialize,
}

pub data Call (D : Type 0) (L : Type 0) (U : Type 0) (V : Type 0) : Type 0 where
  sets_router : Option (Handler D L U V) → Call D L U V
  sets_global_context : Option U → Call D L U V
  sets_thread_context : Option (Option U → Option V) → Call D L U V
  sets_tick_interval : ℕ → Call D L U V
  initializes : Fcgx → Bytes → Call D L U V
  adds : ℕ → Call D L U V
  kills : (Work → Bool) → Call D L U V
  finalizes : (Work → Bool) → Call D L U V

module _ {D L U V : Type 0} (log_message : LogLevel → Bytes → L → L)
    (empty_router : Handler D L U V) where
  -- A call, with the events it makes.
  abbrev pub call : Call D L U V → Server D L U V → Option (Server D L U V × List Event)
  call (sets_router router) s = some (set_router log_message router s, [])
  call (sets_global_context new_context) s = some (set_global_context new_context s, [])
  call (sets_thread_context create) s = some (set_thread_context create s, [])
  call (sets_tick_interval duration) s = some (set_thread_context_tick_interval duration s, [])
  call (initializes fcgx socket_path) s =
      initialize log_message fcgx socket_path s >>= λ p. some (p.1, p.2)
  call (adds count) s = add_threads log_message empty_router count s >>= λ p. some (p.1, p.2)
  call (kills stops) s = kill_threads stops s
  call (finalizes stops) s = finalize stops s

  abbrev pub calls : List (Call D L U V) → Server D L U V → Option (Server D L U V × List Event)
  calls [] s = some (s, [])
  calls (c ∷ later) s = do
    (s₁, events) ← call c s
    (s₂, more) ← calls later s₁
    some (s₂, events ++ more)

-- How many workers a call adds.
abbrev pub added_by : {D L U V : Type 0} → Call D L U V → ℕ
added_by (adds count) = count
added_by _ = 0

abbrev pub added : {D L U V : Type 0} → List (Call D L U V) → ℕ
added [] = 0
added (c ∷ later) = added_by c + added later
