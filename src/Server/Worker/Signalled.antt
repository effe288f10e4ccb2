-- ===== src/Server/Worker/Signalled.antt =====
-- A thread and the signals that arrive at it: `sigusr1`, `sigusr2` and `thread_function`
-- (src/lib/server.cpp).
use fcgiserver.Prelude.{
  ◌≡◌, ◌∙◌, ap, refl, ℕ, false, List, [], ◌∷◌, some, Bytes, All, IsByte, Bool-cases, inl, inr,
}
use fcgiserver.Prelude.Int.{ℤ, pos}
use fcgiserver.Logger.{LogLevel}
use fcgiserver.Request.Response.{CgiData, HeaderMap}
use fcgiserver.Server.Signals.{
  Signal, Flags, deliver_all, has_shutdown, has_tick, deliver_all-flags,
}
use fcgiserver.Server.Worker.{
  Shared, Worker, Accept, accepted, interrupted, regular_exit, failed, Round, thread_function,
}
use fcgiserver.Server.Worker.Serving.{IsWellBehaved}
use fcgiserver.Server.Worker.Loop.{IsServable, ends_by, ends, Accepts, AllServed}
use fcgiserver.Server.Worker.Life.{Lives, thread_function-Lives}

-- A round of a thread's loop: the signals that arrive before its test of `shutdown_triggered`, what
-- other threads change while it waits, and the result of its accept.
pub record Turn (D : Type 0) (L : Type 0) (U : Type 0) (V : Type 0) : Type 0 where
  pub arriving : List Signal
  pub meanwhile : Shared D L U V → Shared D L U V
  pub accept : Accept D

-- The flags of a new thread.
abbrev pub unset : Flags
unset = record { shutdown_triggered = false; tick_triggered = false }

module _ {D L U V : Type 0} where
  abbrev pub round_of : Turn D L U V → Flags → Round D L U V
  round_of turn flags = record {
    shutdown_triggered = flags.shutdown_triggered;
    tick_triggered = flags.tick_triggered;
    meanwhile = turn.meanwhile;
    accept = turn.accept;
  }

  -- The rounds of a thread with these flags: a round that ticks resets `tick_triggered`.
  unfoldable pub rounds_of : List (Turn D L U V) → Flags → List (Round D L U V)
  rounds_of [] flags = []
  rounds_of (turn ∷ turns) flags =
      let found = deliver_all turn.arriving flags in
      round_of turn found ∷ rounds_of turns (record found { tick_triggered = false })

  -- What a thread hears of its signals, in an own description: a round is told to stop exactly by a
  -- SIGUSR1 before its test, and to tick exactly by a SIGUSR2.
  abbrev pub heard : List (Turn D L U V) → List (Round D L U V)
  heard [] = []
  heard (turn ∷ turns) =
      round_of turn (record {
        shutdown_triggered = has_shutdown turn.arriving;
        tick_triggered = has_tick turn.arriving;
      })
      ∷ heard turns

  abbrev pub IsServableTurn : Turn D L U V → Type 0
  IsServableTurn turn = IsServable (round_of turn unset)

  rounds_of-IsServable :
      (turns : List (Turn D L U V)) (flags : Flags)
      → All IsServableTurn turns
      → All IsServable (rounds_of turns flags)
  unfolding rounds_of
  rounds_of-IsServable [] flags h = tt
  rounds_of-IsServable (turn ∷ turns) flags (h, hs) =
      let later = record (deliver_all turn.arriving flags) { tick_triggered = false } in
      (record { textual = h.textual; kept = h.kept }, rounds_of-IsServable turns later hs)

module _ {D L U V : Type 0} (log_message : LogLevel → Bytes → L → L) (cgi : CgiData D)
    (iterate : HeaderMap → HeaderMap) (tick : V → V) where
  Accepts-heard :
      (a : Accept D) (w last : Worker D L U V) (rounds told : List (Round D L U V))
      → ((w last : Worker D L U V)
          → AllServed log_message cgi iterate tick rounds w last
          → AllServed log_message cgi iterate tick told w last)
      → Accepts log_message cgi iterate a w (AllServed log_message cgi iterate tick rounds) last
      → Accepts log_message cgi iterate a w (AllServed log_message cgi iterate tick told) last
  Accepts-heard (accepted lines d) w last rounds told h (s, later) = (s, h s.next last later)
  Accepts-heard interrupted w last rounds told h later = h w last later
  Accepts-heard regular_exit w last rounds told h left = left
  Accepts-heard (failed result) w last rounds told h left = left

  rounds_of-heard :
      (turns : List (Turn D L U V))
      → (ends (rounds_of turns unset) ≡ ends (heard turns))
        × ((w last : Worker D L U V)
            → AllServed log_message cgi iterate tick (rounds_of turns unset) w last
            → AllServed log_message cgi iterate tick (heard turns) w last)
  unfolding rounds_of
  rounds_of-heard [] = (refl, λ w last h. h)
  rounds_of-heard (turn ∷ turns) =
      rw (deliver_all-flags turn.arriving unset) (elim (Bool-cases (has_shutdown turn.arriving)) [
        | inl stop ↦ rw stop (refl, λ w last h. h)
        | inr running ↦
            let (same_end, later) = rounds_of-heard turns in
            rw running (
              ap (ends_by turn.accept) same_end,
              λ w last h.
                  Accepts-heard turn.accept _ last (rounds_of turns unset) (heard turns) later h,
            )
      ])

  -- A new thread gets signals while it serves. If its router is well behaved, the environments of the
  -- requests and the texts of errors are bytes, and other threads set no router that is not well
  -- behaved, then it ends exactly where SIGUSR1 has arrived or its accept fails or says so, it ticks
  -- its context exactly where SIGUSR2 has arrived, and by then it has served every request that it
  -- accepted, in order, each with the router and the contexts that the thread has at that time. No
  -- other signal ends it or costs a request.
  pub thread_function_signalled :
      (error_text : ℤ → Bytes) (id : ℕ) (turns : List (Turn D L U V)) (s : Shared D L U V)
      → ((result : ℤ) → All IsByte (error_text result))
      → All IsServableTurn turns
      → IsWellBehaved s.router
      → (last : Worker D L U V) × (thread_function log_message cgi iterate tick error_text
            (pos 0)
            id
            (rounds_of turns unset)
            s
          ≡ some (ends (heard turns), last))
        × Lives log_message cgi iterate tick (heard turns) id s last
  thread_function_signalled error_text id turns s bytes sound well =
      let (last, returns, (logger, served)) =
        thread_function-Lives log_message cgi iterate tick error_text id (rounds_of turns unset) s
          bytes (rounds_of-IsServable turns unset sound) well in
      let (same_end, later) = rounds_of-heard turns in
      (last, returns ∙ rw same_end, (logger, later _ last served))
