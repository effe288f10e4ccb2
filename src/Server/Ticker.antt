-- ===== src/Server/Ticker.antt =====
-- src/lib/server.cpp: `thread_tick_function`. The sleep of a round, the signals that end it and the
-- other threads that hold the lock are what a `TickRound` tells.
pub mod Turns
use fcgiserver.Prelude.{
  ℕ, ◌+◌, ◌-◌, ◌/◌, ◌%◌, ◌^◌, List, [], ◌∷◌, Option, none, some, ltb, ◌==◌, if◌then◌else◌,
}

-- A round of the loop: the thread was told to stop, `guard.try_lock()` failed, or it succeeded while
-- the server had so many threads.
pub data TickRound : Type 0 where
  shut_down : TickRound
  lock_failed : TickRound
  locked : ℕ → TickRound

-- `size_t(-1)`
abbrev pub no_index : ℕ
no_index = 2 ^ 64 - 1

unfoldable pub next_index : ℕ → ℕ → ℕ
next_index num_threads trigger_index =
    let i = (trigger_index + 1) % 2 ^ 64 % num_threads in if i == 0 then 1 else i

-- `remaining`, in milliseconds
unfoldable pub tick_delay : ℕ → ℕ → ℕ
tick_delay interval num_threads = interval / (if ltb 1 num_threads then num_threads - 1 else 1)

-- The thread that is sent SIGUSR2, if `iter` is not the end of the list.
abbrev pub signal_thread : ℕ → ℕ → List ℕ → List ℕ
signal_thread trigger_index num_threads later =
    if ltb trigger_index num_threads then trigger_index ∷ later else later

-- The loop, from a `trigger_index` on: the places in the list of the threads that are signalled.
unfoldable pub signals : ℕ → List TickRound → List ℕ
signals trigger_index [] = []
signals trigger_index (shut_down ∷ rounds) = []
signals trigger_index (lock_failed ∷ rounds) = signals trigger_index rounds
signals trigger_index (locked num_threads ∷ rounds) =
    let i = next_index num_threads trigger_index in signal_thread i num_threads (signals i rounds)

unfoldable pub thread_tick_function : List TickRound → List ℕ
unfolding signals next_index
thread_tick_function = signals no_index
