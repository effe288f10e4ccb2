-- ===== src/Server/Contexts.antt =====
-- src/lib/server.cpp and request_context.cpp: the global context that the threads of a server share,
-- through any interleaving of the requests that they serve. Under `context_lock` a request takes the
-- context when it begins, and publishes its own when it ends, if it has replaced it.
pub mod Published
use fcgiserver.Prelude.{ℕ, Bool, true, false, Option, ◌==◌, if◌then◌else◌}

-- A thread: it serves no request, or one with this global context. It has `replaced_global_context` in
-- both cases, since its `RequestContext` is that of all its requests.
pub data Serving (U : Type 0) : Type 0 where
  idle : Bool → Serving U
  serving : Option U → Bool → Serving U

-- The global context of the server, and its threads by their ids.
pub record Contexts (U : Type 0) : Type 0 where
  pub global_context : Option U
  pub threads : ℕ → Serving U

module _ {U : Type 0} where
  abbrev pub all_idle : Option U → Contexts U
  all_idle context = record { global_context = context; threads = λ i. idle false }

  unfoldable pub change_thread : ℕ → Serving U → (ℕ → Serving U) → ℕ → Serving U
  change_thread i new threads j = if j == i then new else threads j

  abbrev pub replaced_of : Serving U → Bool
  replaced_of (idle replaced) = replaced
  replaced_of (serving context replaced) = replaced

  -- The start of a request takes the global context, and leaves `replaced_global_context`.
  abbrev pub begin_request : ℕ → Contexts U → Contexts U
  begin_request i s = record s {
    threads = change_thread i (serving s.global_context (replaced_of (s.threads i))) s.threads;
  }

  -- `replace_global_context` by the handler of the thread
  abbrev pub replace_context : ℕ → Option U → Contexts U → Contexts U
  replace_context i new_context s = record s {
    threads = change_thread i (serving new_context true) s.threads;
  }

  -- "Process context updates": a context that was replaced is published, and the flag is reset.
  abbrev pub end_request : ℕ → Option U → Bool → Contexts U → Contexts U
  end_request i context replaced s =
      if replaced
      then record { global_context = context; threads = change_thread i (idle false) s.threads }
      else record s { threads = change_thread i (idle replaced) s.threads }

  -- `Server::set_global_context`
  abbrev pub set_context : Option U → Contexts U → Contexts U
  set_context new_context s = record s { global_context = new_context }
