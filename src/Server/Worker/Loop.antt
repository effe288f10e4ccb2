-- ===== src/Server/Worker/Loop.antt =====
-- The loop of a thread (src/lib/server.cpp).
use mathlib.Core.Path.{subst}
use mathlib.Core.List.{map}
use fcgiserver.Prelude.{
  ◌≡◌, ap, sym, refl, Bool, true, false, List, [], ◌∷◌, Option, some, Bytes, codes, concat, All,
  IsByte, if◌then◌else◌, Bool-cases, inl, inr, arith,
}
use fcgiserver.Prelude.Int.{ℤ}
use fcgiserver.Formatter.Numbers.{print_int}
use fcgiserver.Logger.{LogLevel, error, log}
use fcgiserver.Logger.Stream.{recoded, log_stream-log}
use fcgiserver.Request.Response.{CgiData, HeaderMap}
use fcgiserver.Request.State.Texts.{print_int-IsByte}
use fcgiserver.Server.Worker.{
  Shared, Worker, Accept, accepted, interrupted, regular_exit, failed, Round, wake, say, serve,
  thread_loop,
}
use fcgiserver.Server.Worker.Serving.{IsFresh, Ends, IsWellBehaved, Serves, serve-Serves}

abbrev pub IsTextual : {D : Type 0} → Accept D → Type 0
IsTextual (accepted lines d) = All (All IsByte) lines
IsTextual _ = Unit

abbrev pub ends_by : {D : Type 0} → Accept D → Bool → Bool
ends_by (accepted lines d) later = later
ends_by interrupted later = later
ends_by _ later = true

module _ {D L U V : Type 0} where
  -- The environment of a request is bytes, and other threads set no router that is not well behaved.
  pub record IsServable (round : Round D L U V) : Type 0 where
    pub textual : IsTextual round.accept
    pub kept :
        (s : Shared D L U V) → IsWellBehaved s.router → IsWellBehaved (round.meanwhile s).router

  -- Whether the thread ends in these rounds.
  abbrev pub ends : List (Round D L U V) → Bool
  ends [] = false
  ends (round ∷ rounds) =
      if round.shutdown_triggered then true else ends_by round.accept (ends rounds)

-- The thread is left as it is, but for what its logger said.
abbrev pub IsLeft : {D L U V : Type 0} → Worker D L U V → Worker D L U V → Type 0
IsLeft w last = last ≡ record w { shared = record w.shared { logger = last.shared.logger } }

module _ {D L U V : Type 0} (log_message : LogLevel → Bytes → L → L) (cgi : CgiData D)
    (iterate : HeaderMap → HeaderMap) where
  -- What a round makes of the thread whose accept returns: a request is served with what the thread
  -- has then, its router above all, and what comes later goes on with the thread that is left.
  abbrev pub Accepts :
      Accept D
      → Worker D L U V
      → (Worker D L U V → Worker D L U V → Type 0)
      → Worker D L U V
      → Type 0
  Accepts (accepted lines d) w later last =
      (s : Serves log_message cgi iterate lines d w (serve log_message cgi iterate lines d w))
      × later s.next last
  Accepts interrupted w later last = later w last
  Accepts _ w later last = IsLeft w last

  -- These rounds take the thread `w` to the thread `last`: each request that they bring until the
  -- thread ends is served, in order, by the thread as the round finds it.
  abbrev pub AllServed : (V → V) → List (Round D L U V) → Worker D L U V → Worker D L U V → Type 0
  AllServed tick [] w last = IsLeft w last
  AllServed tick (round ∷ rounds) w last =
      if round.shutdown_triggered
      then IsLeft w last
      else Accepts round.accept (wake tick round w) (AllServed tick rounds) last

module _ {D L U V : Type 0} (log_message : LogLevel → Bytes → L → L) (cgi : CgiData D)
    (iterate : HeaderMap → HeaderMap) where
  pub say_total :
      (level : LogLevel) (texts : List Bytes) (w : Worker D L U V)
      → All (All IsByte) texts
      → (logger : Option L) × (say log_message level texts w
          ≡ some (record w { shared = record w.shared { logger = logger } }))
  say_total level texts w h = (
    log log_message level (concat (map recoded texts)) w.shared.logger,
    rw (log_stream-log log_message level texts w.shared.logger h),
  )

  module _ (tick : V → V) (error_text : ℤ → Bytes)
      (bytes : (result : ℤ) → All IsByte (error_text result)) where
    -- What the loop comes to.
    pub record Loops (rounds : List (Round D L U V)) (w : Worker D L U V) : Type 0 where
      pub last : Worker D L U V
      pub returns :
          thread_loop log_message cgi iterate tick error_text rounds w ≡ some (ends rounds, last)
      pub served :
          (logger : Option L)
          → AllServed log_message cgi iterate tick rounds w
              (record last { shared = record last.shared { logger = logger } })

    stopped-Loops :
        (round : Round D L U V) (rounds : List (Round D L U V)) (w : Worker D L U V)
        → round.shutdown_triggered ≡ true
        → Loops (round ∷ rounds) w
    unfolding thread_loop
    stopped-Loops round rounds w stop = record {
      last = w;
      returns = rw stop;
      served = λ logger. rw stop refl;
    }

    module _ (round : Round D L U V) (rounds : List (Round D L U V)) (w : Worker D L U V)
        (sound : IsServable round) (well : IsWellBehaved w.shared.router)
        (later : (w' : Worker D L U V) → IsWellBehaved w'.shared.router → Loops rounds w')
        (running : round.shutdown_triggered ≡ false) where
      accept-Loops : (a : Accept D) → round.accept ≡ a → Loops (round ∷ rounds) w
      unfolding thread_loop
      accept-Loops (accepted lines d) e =
          let w₁ = wake tick round w in
          let text : All (All IsByte) lines = rw e at sound.textual in
          let s = serve-Serves log_message cgi iterate lines d w₁ text (sound.kept _ well) in
          let same_router : s.next.shared.router ≡ w₁.shared.router =
            ap (λ (x : Worker D L U V). x.shared.router) s.published in
          let well' : IsWellBehaved s.next.shared.router = λ c.
            subst (λ router. IsFresh c.request → Ends (router c)) (sym same_router)
              (sound.kept _ well c) in
          let l = later s.next well' in
          record {
            last = l.last;
            returns = rw (running, e, s.returns) l.returns;
            served = λ logger. rw (running, e) (s, l.served logger);
          }
      accept-Loops interrupted e =
          let l = later (wake tick round w) (sound.kept _ well) in
          record {
            last = l.last;
            returns = rw (running, e) l.returns;
            served = λ logger. rw (running, e) (l.served logger);
          }
      accept-Loops regular_exit e = record {
        last = wake tick round w;
        returns = rw (running, e);
        served = λ logger. rw (running, e) refl;
      }
      accept-Loops (failed result) e =
          let w₁ = wake tick round w in
          let digits = print_int-IsByte result in
          let text = bytes result in
          let (logger, said) =
            say_total error
              (codes "Error "
                ∷ print_int result
                ∷ codes " on FCGX_Accept_r: "
                ∷ error_text result
                ∷ [])
              w₁ (ground arith) in
          record {
            last = record w₁ { shared = record w₁.shared { logger = logger } };
            returns = rw (running, e, said);
            served = λ logger. rw (running, e) refl;
          }

    pub thread_loop-Loops :
        (rounds : List (Round D L U V)) (w : Worker D L U V)
        → All IsServable rounds
        → IsWellBehaved w.shared.router
        → Loops rounds w
    thread_loop-Loops [] w h well = record {
      last = w;
      returns = unfold thread_loop in refl;
      served = λ logger. refl;
    }
    thread_loop-Loops (round ∷ rounds) w (h, hs) well = elim (Bool-cases round.shutdown_triggered) [
      | inl stop ↦ stopped-Loops round rounds w stop
      | inr running ↦
          accept-Loops round rounds w h well (λ w' well'. thread_loop-Loops rounds w' hs well')
            running round.accept refl
    ]
