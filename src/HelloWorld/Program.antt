-- ===== src/HelloWorld/Program.antt =====
-- `main` of the example program (src/main/main.cpp), from its first call to its exit status.
use mathlib.Core.List.{map}
use fcgiserver.Prelude.{
  ◌≡◌, Bool, true, false, List, [], ◌∷◌, Option, none, some, Bytes, codes, concat, if◌then◌else◌,
}
use fcgiserver.Prelude.Int.{ℤ}
use fcgiserver.Logger.{LogLevel, info, log}
use fcgiserver.Logger.Stream.{recoded}
use fcgiserver.Server.Answer.{Handler}
use fcgiserver.Server.Pool.{Work, ticker, worker, Event, started, Server, thread}
use fcgiserver.Server.Pool.Threads.{starts, joins}
use fcgiserver.Server.Signals.{Signal, Mask}
use fcgiserver.HelloWorld.{socket_path}

-- The work of the program's threads.
abbrev pub works : List Work
works = ticker ∷ worker 1 ∷ worker 2 ∷ worker 3 ∷ worker 4 ∷ []

abbrev starting : List Event
starting =
    started ticker
    ∷ started (worker 1)
    ∷ started (worker 2)
    ∷ started (worker 3)
    ∷ started (worker 4)
    ∷ []

-- How the program ends.
pub record Exits {D L U V : Type 0} (o : Option (Bool × Server D L U V × List Event))
    (success : Bool) : Type 0 where
  pub last : Server D L U V
  pub events : List Event
  pub returns : o ≡ some (success, last, events)
  pub gone : last.threads ≡ []
  pub all_started : starts events ≡ (if success then works else [])
  pub all_joined : joins events ≡ (if success then works else [])

module _ {D L U V : Type 0} (router : Handler D L U V) where
  -- The server before its threads start, and with them.
  abbrev ready : Bytes → ℤ → Option L → Server D L U V
  ready path fd logger = record {
    socket_path = path;
    socket_fd = fd;
    logger = logger;
    router = some router;
    threads = [];
    last_thread_id = 0;
    global_context = none;
    create_thread_context = none;
    tick_interval = 60;
  }

  abbrev running : Bytes → ℤ → Option L → Server D L U V
  running path fd logger = record (ready path fd logger) {
    threads =
        thread ticker
        ∷ thread (worker 1)
        ∷ thread (worker 2)
        ∷ thread (worker 3)
        ∷ thread (worker 4)
        ∷ [];
    last_thread_id = 4;
  }

-- How it ends, or that it does not, by what its wait for a signal finds.
abbrev pub Finishes :
    {D L U V : Type 0} {A : Type 0}
    → Option A
    → Bool
    → Option (Bool × Server D L U V × List Event)
    → Type 0
Finishes none true o = o ≡ none
Finishes (some found) true o = Exits o true
Finishes wait false o = Exits o false

module _ {D L U V : Type 0} (stops : Work → Bool) (log_message : LogLevel → Bytes → L → L) where
  module _ (ends : (work : Work) → stops work ≡ true) where
    module _ (router empty_router : Handler D L U V) (arriving : List Signal) (mask : Mask) where
      said : Option L → Option L
      said logger =
          log log_message info
            (concat (map recoded (codes "Starting " ∷ codes "4" ∷ codes " threads" ∷ []))) logger
