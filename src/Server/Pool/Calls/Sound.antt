-- ===== src/Server/Pool/Calls/Sound.antt =====
-- The threads of a server through all calls (src/lib/server.cpp).
use mathlib.Core.Path.{subst}
use fcgiserver.Prelude.{
  ℕ, ◌+◌, ◌^◌, ◌<◌, ◌≡◌, ◌∙◌, sym, refl, List, [], ◌++◌, append-nil, append_assoc, Option, some,
  ◌⊎◌, inl, inr,
}
use fcgiserver.Server.Answer.{Handler}
use fcgiserver.Server.Pool.{Event, Server, add_workers, add_ticker, each_joinable, started}
use fcgiserver.Server.Pool.Threads.{
  starts, joins, alive, ids, numbers, starts-append, joins-append, ids-append, alive-append,
  starts-started, joins-started, HasTicker, add_workers-Adds, numbers_from, add_ticker-HasTicker,
  ids-add_ticker,
}

-- A server, and what it has asked for since it was made.
pub record IsSound {D L U V : Type 0} (s : Server D L U V) (events : List Event) : Type 0 where
  pub ticker_first : HasTicker s.threads
  pub routed : (s.threads ≡ []) ⊎ ((router : Handler D L U V) × (s.router ≡ some router))
  pub balanced : starts events ≡ joins events ++ alive s.threads
  pub numbered : ids (starts events) ≡ numbers 0 s.last_thread_id

module _ {D L U V : Type 0} (s : Server D L U V) (events : List Event) (h : IsSound s events) where
  -- Calls that leave the threads.
  pub same-IsSound :
      (next : Server D L U V) (more : List Event)
      → next.threads ≡ s.threads
      → next.last_thread_id ≡ s.last_thread_id
      → ((s.router ≡ next.router) ⊎ ((router : Handler D L U V) × (next.router ≡ some router)))
      → starts more ≡ []
      → joins more ≡ []
      → IsSound next (events ++ more)
  same-IsSound next more threads last router no_starts no_joins = record {
    ticker_first = subst HasTicker (sym threads) h.ticker_first;
    routed = elim h.routed [
      | inl gone ↦ inl (threads ∙ gone)
      | inr (old, there) ↦ elim router [
        | inl same ↦ inr (old, sym same ∙ there)
        | inr found ↦ inr found
      ]
    ];
    balanced =
        rw
          (
            starts-append events more,
            joins-append events more,
            no_starts,
            no_joins,
            threads,
            append-nil (starts events),
            append-nil (joins events),
          )
          h.balanced;
    numbered =
        rw (starts-append events more, no_starts, append-nil (starts events), last) h.numbered;
  }

  pub kill-IsSound :
      (next : Server D L U V) (rest : List Event)
      → next.threads ≡ []
      → next.last_thread_id ≡ s.last_thread_id
      → starts rest ≡ []
      → joins rest ≡ alive s.threads
      → IsSound next (events ++ rest)
  kill-IsSound next rest gone last no_starts all_joined = record {
    ticker_first = subst HasTicker (sym gone) tt;
    routed = inl gone;
    balanced =
        rw
          (
            starts-append events rest,
            joins-append events rest,
            no_starts,
            all_joined,
            gone,
            append-nil (starts events),
            append-nil (joins events ++ alive s.threads),
          )
          h.balanced;
    numbered =
        rw (starts-append events rest, no_starts, append-nil (starts events), last) h.numbered;
  }

  pub add-IsSound :
      (count : ℕ) (router : Handler D L U V) (logger : Option L)
      → s.last_thread_id + count < 2 ^ 64
      → let new_threads = add_ticker s.threads ++ (add_workers count s.last_thread_id).0 in
        IsSound
          (record s {
            router = some router;
            logger = logger;
            threads = s.threads ++ new_threads;
            last_thread_id = (add_workers count s.last_thread_id).1;
          })
          (events ++ each_joinable started new_threads)
  add-IsSound count router logger fits =
      let a = add_workers-Adds count s.last_thread_id fits in
      let workers = (add_workers count s.last_thread_id).0 in
      let new_threads = add_ticker s.threads ++ workers in
      let new_events = each_joinable started new_threads in
      let new_ids : ids (alive new_threads) ≡ numbers s.last_thread_id count =
        rw
          (
            alive-append (add_ticker s.threads) workers,
            ids-append (alive (add_ticker s.threads)) (alive workers),
            ids-add_ticker s.threads,
          )
          a.ids_are in
      record {
        ticker_first = add_ticker-HasTicker s.threads workers h.ticker_first a.workers;
        routed = inr (router, refl);
        balanced =
            rw
              (
                starts-append events new_events,
                joins-append events new_events,
                starts-started new_threads,
                joins-started new_threads,
                alive-append s.threads new_threads,
                append-nil (joins events),
                h.balanced,
              )
              (append_assoc (joins events) (alive s.threads) (alive new_threads));
        numbered =
            rw
              (
                starts-append events new_events,
                starts-started new_threads,
                ids-append (starts events) (alive new_threads),
                h.numbered,
                new_ids,
                a.last_is,
              )
              (numbers_from s.last_thread_id count);
      }
