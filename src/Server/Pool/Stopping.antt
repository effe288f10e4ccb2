-- ===== src/Server/Pool/Stopping.antt =====
-- A server that is stopped (src/lib/server.cpp).
use fcgiserver.Prelude.{◌≡◌, refl, [], ◌∷◌, ◌++◌, if◌then◌else◌, Bool-cases, inl, inr}
use fcgiserver.Server.Pool.{
  Event, closed, unlinked, shutdown_pending, killed, joined, each_joinable, Server, is_zero,
  finalized,
}

-- Where each `join` returns, finalizing kills and joins the threads and then closes the socket and
-- removes its path, if the server has a socket of its own. Finalizing again, as the destructor does,
-- kills, joins, closes and removes nothing.
pub finalize_again :
    {D L U V : Type 0} (s : Server D L U V)
    → let (next, events) = finalized s in
      (events
        ≡ shutdown_pending ∷ (each_joinable killed s.threads ++ each_joinable joined s.threads)
          ++ (if is_zero s.socket_fd then [] else closed s.socket_fd ∷ unlinked s.socket_path ∷ []))
      × (next.last_thread_id ≡ s.last_thread_id)
      × (finalized next ≡ (next, shutdown_pending ∷ []))
unfolding finalized fcgiserver.Server.Pool.killed_threads
finalize_again s = elim (Bool-cases (is_zero s.socket_fd)) [
  | inl none_open ↦ rw none_open (refl, refl, rw none_open)
  | inr some_open ↦ rw some_open (refl, refl, refl)
]
