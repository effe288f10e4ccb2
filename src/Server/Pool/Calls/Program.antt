-- ===== src/Server/Pool/Calls/Program.antt =====
-- The calls of a program (src/lib/server.cpp).
use mathlib.Core.Path.{subst}
use fcgiserver.Prelude.{
  ◌+◌, ◌^◌, ◌<◌, ◌≡◌, ◌∙◌, sym, ap, refl, Bool, true, List, [], ◌∷◌, ◌++◌, append-nil, append_assoc,
  some, Bytes, All, inl, arith,
}
use fcgiserver.Logger.{LogLevel}
use fcgiserver.Server.Answer.{Handler}
use fcgiserver.Server.Pool.{Work, Event, Server, new_server, finalize, finalized}
use fcgiserver.Server.Pool.Threads.{starts, joins, alive, finalize-finalized}
use fcgiserver.Server.Pool.Calls.{Call, calls, added}
use fcgiserver.Server.Pool.Calls.Sound.{IsSound}
use fcgiserver.Server.Pool.Calls.Steps.{CanReturn, call-Keeps, finalize-IsSound}

-- All calls of a program.
pub record Ran {D L U V : Type 0} (log_message : LogLevel → Bytes → L → L)
    (empty_router : Handler D L U V) (before : List Event) (later : List (Call D L U V))
    (s : Server D L U V) : Type 0 where
  pub last : Server D L U V
  pub events : List Event
  pub returns : calls log_message empty_router later s ≡ some (last, events)
  pub sound : IsSound last (before ++ events)

module _ {D L U V : Type 0} (log_message : LogLevel → Bytes → L → L)
    (empty_router : Handler D L U V) where
  calls-IsSound :
      (later : List (Call D L U V)) (s : Server D L U V) (before : List Event)
      → IsSound s before
      → All CanReturn later
      → s.last_thread_id + added later < 2 ^ 64
      → Ran log_message empty_router before later s
  calls-IsSound [] s before h t fits = record {
    last = s;
    events = [];
    returns = refl;
    sound = subst (IsSound s) (sym (append-nil before)) h;
  }
  calls-IsSound (c ∷ later) s before h (t, ts) fits =
      let k = call-Keeps log_message empty_router s before h c t (omega arith) in
      let rest = calls-IsSound later k.next (before ++ k.more) k.sound ts (omega (arith, k.last)) in
      record {
        last = rest.last;
        events = k.more ++ rest.events;
        returns = rw (k.returns, rest.returns);
        sound = subst (IsSound rest.last) (append_assoc before k.more rest.events) rest.sound;
      }

  pub calls_sound :
      (console : L) (program : List (Call D L U V))
      → All CanReturn program
      → added program < 2 ^ 64
      → Ran log_message empty_router [] program (new_server console)
  calls_sound console program t fits =
      calls-IsSound program (new_server console) []
        (record { ticker_first = tt; routed = inl refl; balanced = refl; numbered = refl }) t
        (omega arith)

  -- A program may make any calls: they all return, if the texts of errors are bytes, the ids of the
  -- workers suffice, and every thread ends once it is told to while `threads_lock` is held. Then the first thread is the maintenance thread and the others are workers; a server with
  -- threads has a router; what was started and not joined are the threads, in order; and the n-th
  -- worker that was started has the id n. When the server is finalized then, that returns too, and all
  -- that was ever started has been joined.
  pub finalize-calls :
      (console : L) (program : List (Call D L U V)) (stops : Work → Bool)
      → All CanReturn program
      → added program < 2 ^ 64
      → ((work : Work) → stops work ≡ true)
      → (last : Server D L U V) × (events : List Event) × (next : Server D L U V) × (more : List
          Event)
        × (calls log_message empty_router program (new_server console) ≡ some (last, events))
        × IsSound last events
        × (finalize stops last ≡ some (next, more))
        × (starts (events ++ more) ≡ joins (events ++ more))
  finalize-calls console program stops t fits ends =
      let ran = calls_sound console program t fits in
      let (sound, gone, _) =
        finalize-IsSound log_message empty_router ran.last ran.events ran.sound in
      let none_left : alive (finalized ran.last).0.threads ≡ [] = ap alive gone in
      (
        ran.last,
        ran.events,
        (finalized ran.last).0,
        (finalized ran.last).1,
        ran.returns,
        ran.sound,
        finalize-finalized stops ran.last ends,
        sound.balanced
            ∙ ap (◌++◌ (joins (ran.events ++ (finalized ran.last).1))) none_left
            ∙ append-nil (joins (ran.events ++ (finalized ran.last).1)),
      )
