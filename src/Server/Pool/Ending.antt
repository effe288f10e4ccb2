-- ===== src/Server/Pool/Ending.antt =====
-- What `Server::initialize` and `Server::finalized` start and join (src/lib/server.cpp).
use fcgiserver.Prelude.{◌≡◌, ◌∙◌, refl, ◌&&◌, not, List, [], ◌∷◌, ◌++◌, Bytes, if_both, append-nil}
use fcgiserver.Strings.{is_empty}
use fcgiserver.Server.Pool.{
  Event, opened, unmasked, Fcgx, Server, is_zero, finalized, each_joinable, killed, joined,
  killed_threads, close_socket,
}
use fcgiserver.Server.Pool.Threads.{
  starts, joins, starts-append, joins-append, alive, starts_killed, joins_killed,
}
use fcgiserver.Server.Pool.Opening.{opens}

pub opens_nothing :
    (fcgx : Fcgx) (path : Bytes) → (starts (opens fcgx path) ≡ []) × (joins (opens fcgx path) ≡ [])
opens_nothing fcgx path =
    if_both (λ events. (starts events ≡ []) × (joins events ≡ []))
      (is_zero fcgx.init && (fcgx.is_cgi && not (is_empty path))) (unmasked ∷ opened path ∷ []) []
      (refl, refl) (refl, refl)

module _ {D L U V : Type 0} (s : Server D L U V) where
  pub finalize_gone : (finalized s).0.threads ≡ []
  unfolding finalized killed_threads
  finalize_gone =
      if_both (λ (p : Server D L U V × List Event). p.0.threads ≡ []) (is_zero s.socket_fd) _ _ refl
        refl

  closing_nothing :
      let closing = (close_socket (killed_threads s).0).1 in
      (starts closing ≡ []) × (joins closing ≡ [])
  unfolding killed_threads
  closing_nothing =
      if_both (λ (p : Server D L U V × List Event). (starts p.1 ≡ []) × (joins p.1 ≡ []))
        (is_zero s.socket_fd) _ _ (refl, refl) (refl, refl)

  pub finalize_events : (starts (finalized s).1 ≡ []) × (joins (finalized s).1 ≡ alive s.threads)
  unfolding finalized
  finalize_events =
      let (no_starts, no_joins) = closing_nothing in
      let stopped = each_joinable killed s.threads ++ each_joinable joined s.threads in
      let closing = (close_socket (killed_threads s).0).1 in
      (
        starts-append stopped closing ∙ rw (no_starts, starts_killed s.threads),
        joins-append stopped closing
            ∙ rw (no_joins, joins_killed s.threads, append-nil (alive s.threads)),
      )
