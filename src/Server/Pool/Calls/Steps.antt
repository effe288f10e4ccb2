-- ===== src/Server/Pool/Calls/Steps.antt =====
-- Each call keeps the server sound (src/lib/server.cpp).
use mathlib.Core.List.{map}
use fcgiserver.Prelude.{
  ℕ, ◌+◌, ◌^◌, ◌<◌, ◌≡◌, refl, true, not, ◌&&◌, List, [], ◌∷◌, ◌++◌, append-nil, Option, none, some,
  Bytes, codes, All, IsByte, ◌⊎◌, inl, inr, if_both, Bool-cases, Option-cases, arith, concat,
}
use fcgiserver.Prelude.Int.{pos}
use fcgiserver.Strings.{is_empty}
use fcgiserver.Digits.{print}
use fcgiserver.Logger.{LogLevel, info, error, log}
use fcgiserver.Logger.Stream.{recoded, log_stream-log}
use fcgiserver.Request.State.Texts.{print-IsByte}
use fcgiserver.Server.Answer.{Handler}
use fcgiserver.Server.Pool.{
  Work, Event, killed, joined, shutdown_pending, closed, unlinked, Fcgx, Server, each_joinable,
  is_zero, set_global_context, set_thread_context, set_thread_context_tick_interval, set_router,
  killed_threads, finalized, add_threads,
}
use fcgiserver.Server.Pool.Threads.{
  kill_threads-killed_threads, finalize-finalized, starts, joins, alive, starts-append,
  joins-append, starts_killed, joins_killed, add_workers-Adds,
}
use fcgiserver.Server.Pool.Opening.{succeeds, with_socket, with_failure, opens, initialize-succeeds}
use fcgiserver.Server.Pool.Calls.{
  Call, sets_router, sets_global_context, sets_thread_context, sets_tick_interval, initializes,
  adds, kills, finalizes, call, added_by,
}
use fcgiserver.Server.Pool.Calls.Sound.{IsSound, same-IsSound, kill-IsSound, add-IsSound}

-- A call returns: the text of its error is bytes, and each thread that it joins ends.
abbrev pub CanReturn : {D L U V : Type 0} → Call D L U V → Type 0
CanReturn (initializes fcgx socket_path) = All IsByte fcgx.open_error
CanReturn (kills stops) = (work : Work) → stops work ≡ true
CanReturn (finalizes stops) = (work : Work) → stops work ≡ true
CanReturn _ = Unit

-- A call returns, and keeps the server sound.
pub record Keeps {D L U V : Type 0} (events : List Event) (c : Call D L U V) (s : Server D L U V)
    (o : Option (Server D L U V × List Event)) : Type 0 where
  pub next : Server D L U V
  pub more : List Event
  pub returns : o ≡ some (next, more)
  pub sound : IsSound next (events ++ more)
  pub last : next.last_thread_id ≡ s.last_thread_id + added_by c

module _ {D L U V : Type 0} (log_message : LogLevel → Bytes → L → L)
    (empty_router : Handler D L U V) (s : Server D L U V) (events : List Event)
    (h : IsSound s events) where
  -- A call that changes nothing but what has no part in this.
  quiet-Keeps :
      (c : Call D L U V) (next : Server D L U V)
      → added_by c ≡ 0
      → next.threads ≡ s.threads
      → next.last_thread_id ≡ s.last_thread_id
      → ((s.router ≡ next.router) ⊎ ((router : Handler D L U V) × (next.router ≡ some router)))
      → (more : List Event) → starts more ≡ []
      → joins more ≡ []
      → Keeps events c s (some (next, more))
  quiet-Keeps c next none_added threads last router more no_starts no_joins = record {
    next = next;
    more = more;
    returns = refl;
    sound = same-IsSound s events h next more threads last router no_starts no_joins;
    last = rw none_added (omega (arith, last));
  }

  opens_quiet :
      (fcgx : Fcgx) (path : Bytes)
      → (starts (opens fcgx path) ≡ []) × (joins (opens fcgx path) ≡ [])
  opens_quiet fcgx path =
      elim (Bool-cases (is_zero fcgx.init && (fcgx.is_cgi && not (is_empty path)))) [
        | inl does ↦ rw does (refl, refl)
        | inr does_not ↦ rw does_not (refl, refl)
      ]

  initializes-Keeps :
      (fcgx : Fcgx) (path : Bytes)
      → All IsByte fcgx.open_error
      → Keeps events
          (initializes fcgx path)
          s
          (call log_message empty_router (initializes fcgx path) s)
  initializes-Keeps fcgx path bytes =
      let (no_starts, no_joins) = opens_quiet fcgx path in
      let c : Call D L U V = initializes fcgx path in
      let quiet =
        λ (next : Server D L U V) (t : next.threads ≡ s.threads)
            (l : next.last_thread_id ≡ s.last_thread_id) (r : s.router ≡ next.router).
          quiet-Keeps c next refl t l (inl r) (opens fcgx path) no_starts no_joins in
      let P = λ (next : Server D L U V). Keeps events c s (some (next, opens fcgx path)) in
      rw (initialize-succeeds log_message fcgx path s bytes) (
        if_both P (succeeds fcgx path) (with_socket fcgx path s)
          (with_failure log_message fcgx path s)
          (if_both P fcgx.is_cgi _ _ (quiet _ refl refl refl) (quiet _ refl refl refl))
          (quiet _ refl refl refl))

  adds-Keeps :
      (count : ℕ)
      → s.last_thread_id + count < 2 ^ 64
      → Keeps events (adds count) s (call log_message empty_router (adds count) s)
  unfolding add_threads
  adds-Keeps count fits =
      let texts = codes "Starting " ∷ print 10 count ∷ codes " threads" ∷ [] in
      let digits = print-IsByte count in
      let said = λ (lg : Option L). log_stream-log log_message info texts lg (ground arith) in
      let a = add_workers-Adds count s.last_thread_id fits in
      elim (Option-cases s.router) [
        | inl missing ↦
            let message =
              log log_message error (codes "No router provided, adding an empty route") s.logger in
            rw (missing, said message)
              (record {
                next = _;
                more = _;
                returns = refl;
                sound =
                    add-IsSound s events h count empty_router
                      (log log_message info (concat (map recoded texts)) message) fits;
                last = a.last_is;
              })
        | inr (router, there) ↦
            rw (there, said s.logger)
              (record {
                next = _;
                more = _;
                returns = refl;
                sound =
                    add-IsSound s events h count router
                      (log log_message info (concat (map recoded texts)) s.logger) fits;
                last = a.last_is;
              })
      ]

  -- The events of `finalized`, in front of those that close the socket.
  abbrev stopping : List Event
  stopping = each_joinable killed s.threads ++ each_joinable joined s.threads

  stopped-IsSound :
      (next : Server D L U V) (closing : List Event)
      → next.threads ≡ []
      → next.last_thread_id ≡ s.last_thread_id
      → starts closing ≡ []
      → joins closing ≡ []
      → IsSound next (events ++ (shutdown_pending ∷ stopping ++ closing))
  stopped-IsSound next closing gone same no_starts no_joins =
      kill-IsSound s events h next (shutdown_pending ∷ stopping ++ closing) gone same
        (rw (starts-append stopping closing, starts_killed s.threads, no_starts))
        (rw (
          joins-append stopping closing,
          joins_killed s.threads,
          no_joins,
          append-nil (alive s.threads),
        ))

  pub finalize-IsSound :
      let (next, more) = finalized s in
      IsSound next (events ++ more) × (next.threads ≡ []) × (next.last_thread_id ≡ s.last_thread_id)
  unfolding finalized killed_threads
  finalize-IsSound = elim (Bool-cases (is_zero s.socket_fd)) [
    | inl none_open ↦
        rw none_open
          (stopped-IsSound (record s { threads = [] }) [] refl refl refl refl, refl, refl)
    | inr some_open ↦
        let closing = closed s.socket_fd ∷ unlinked s.socket_path ∷ [] in
        rw some_open (
          stopped-IsSound (record s { threads = []; socket_fd = pos 0; socket_path = [] }) closing
              refl refl refl refl,
          refl,
          refl,
        )
  ]

  pub call-Keeps :
      (c : Call D L U V)
      → CanReturn c
      → s.last_thread_id + added_by c < 2 ^ 64
      → Keeps events c s (call log_message empty_router c s)
  unfolding set_router set_global_context set_thread_context set_thread_context_tick_interval
      killed_threads
  call-Keeps (sets_router none) t fits =
      quiet-Keeps (sets_router none) _ refl refl refl (inl refl) [] refl refl
  call-Keeps (sets_router (some router)) t fits =
      quiet-Keeps (sets_router (some router)) _ refl refl refl (inr (router, refl)) [] refl refl
  call-Keeps (sets_global_context c) t fits =
      quiet-Keeps (sets_global_context c) _ refl refl refl (inl refl) [] refl refl
  call-Keeps (sets_thread_context c) t fits =
      quiet-Keeps (sets_thread_context c) _ refl refl refl (inl refl) [] refl refl
  call-Keeps (sets_tick_interval d) t fits =
      quiet-Keeps (sets_tick_interval d) _ refl refl refl (inl refl) [] refl refl
  call-Keeps (initializes fcgx path) t fits = initializes-Keeps fcgx path t
  call-Keeps (adds count) t fits = adds-Keeps count fits
  call-Keeps (kills stops) t fits = rw (kill_threads-killed_threads stops s t) (record {
    next = record s { threads = [] };
    more = each_joinable killed s.threads ++ each_joinable joined s.threads;
    returns = refl;
    sound =
        kill-IsSound s events h (record s { threads = [] }) _ refl refl (starts_killed s.threads)
          (joins_killed s.threads);
    last = omega arith;
  })
  call-Keeps (finalizes stops) t fits =
      let (sound, gone, same) = finalize-IsSound in
      record {
        next = (finalized s).0;
        more = (finalized s).1;
        returns = finalize-finalized stops s t;
        sound = sound;
        last = omega (arith, same);
      }
