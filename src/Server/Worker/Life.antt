-- ===== src/Server/Worker/Life.antt =====
-- A thread from its start to its end (src/lib/server.cpp).
use fcgiserver.Prelude.{
  ℕ, ◌≡◌, refl, Bool, true, false, List, [], ◌∷◌, Option, some, Bytes, codes, All, IsByte, arith,
}
use fcgiserver.Prelude.Int.{ℤ, pos}
use fcgiserver.Digits.{print}
use fcgiserver.Logger.{LogLevel, debug}
use fcgiserver.Request.Response.{CgiData, HeaderMap}
use fcgiserver.Request.State.Texts.{print-IsByte}
use fcgiserver.Server.Worker.{Shared, Worker, Round, start, say, say_finished, thread_function}
use fcgiserver.Server.Worker.Serving.{IsWellBehaved}
use fcgiserver.Server.Worker.Loop.{IsServable, ends, AllServed, say_total, thread_loop-Loops}

module _ {D L U V : Type 0} (log_message : LogLevel → Bytes → L → L) (cgi : CgiData D)
    (iterate : HeaderMap → HeaderMap) where
  started_total :
      (id : ℕ) (word : Bytes) (w : Worker D L U V)
      → All IsByte word
      → (logger : Option L) × (say log_message debug (codes "Thread #" ∷ print 10 id ∷ word ∷ []) w
          ≡ some (record w { shared = record w.shared { logger = logger } }))
  started_total id word w h =
      let digits = print-IsByte id in
      say_total log_message cgi iterate debug (codes "Thread #" ∷ print 10 id ∷ word ∷ []) w
        (ground arith)

  say_finished_total :
      (ended : Bool) (w : Worker D L U V)
      → (logger : Option L) × (say_finished log_message (ended, w)
          ≡ some (ended, record w { shared = record w.shared { logger = logger } }))
  say_finished_total false w = (w.shared.logger, refl)
  say_finished_total true w =
      let (logger, said) = started_total w.id (codes " finished") w (ground arith) in
      (logger, rw said)

  -- A thread from its start: its state when the loop begins is that of a new thread, but for what its
  -- logger said.
  abbrev pub Lives :
      (tick : V → V) (rounds : List (Round D L U V)) (id : ℕ) (s : Shared D L U V)
      (last : Worker D L U V)
      → Type 0
  Lives tick rounds id s last =
      (logger : Option L) × AllServed log_message cgi iterate tick rounds
        (start id (record s { logger = logger })) last

  pub thread_function-Lives :
      (tick : V → V) (error_text : ℤ → Bytes) (id : ℕ) (rounds : List (Round D L U V))
      (s : Shared D L U V)
      → ((result : ℤ) → All IsByte (error_text result))
      → All IsServable rounds
      → IsWellBehaved s.router
      → (last : Worker D L U V) × (thread_function log_message cgi iterate tick error_text
            (pos 0)
            id
            rounds
            s
          ≡ some (ends rounds, last))
        × Lives tick rounds id s last
  unfolding thread_function
  thread_function-Lives tick error_text id rounds s bytes sound well =
      let (logger, said) = started_total id (codes " started") (start id s) (ground arith) in
      let w = start id (record s { logger = logger }) in
      let l = thread_loop-Loops log_message cgi iterate tick error_text bytes rounds w sound well in
      let (quiet, finished) = say_finished_total (ends rounds) l.last in
      (
        record l.last { shared = record l.last.shared { logger = quiet } },
        rw (said, l.returns) finished,
        (logger, l.served quiet),
      )
