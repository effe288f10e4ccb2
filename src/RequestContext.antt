-- ===== src/RequestContext.antt =====
-- src/lib/request_context.cpp, request_context_private.h and user_context.cpp: what a handler is
-- given. U and V stand for the user's classes behind a global and a thread's `UserContext`; a null
-- pointer is `none`.
use fcgiserver.Prelude.{ℕ, Bool, true, false, Option, none}
use fcgiserver.Prelude.Int.{ℤ, pos}
use fcgiserver.Request.State.{Request}

-- `class RequestContextPrivate`, while it points to a request
pub record RequestContext (D : Type 0) (L : Type 0) (U : Type 0) (V : Type 0) : Type 0 where
  pub thread_id : ℕ
  pub request : Request D L
  pub global_context : Option U
  pub thread_context : Option V
  pub replaced_global_context : Bool

module _ {D L U V : Type 0} where
  -- The constructor that users call.
  abbrev pub request_context : Request D L → RequestContext D L U V
  request_context r = record {
    thread_id = 0;
    request = r;
    global_context = none;
    thread_context = none;
    replaced_global_context = false;
  }

  unfoldable pub replace_global_context : Option U → RequestContext D L U V → RequestContext D L U V
  replace_global_context new_context c = record c {
    global_context = new_context;
    replaced_global_context = true;
  }

  unfoldable pub replace_thread_context : Option V → RequestContext D L U V → RequestContext D L U V
  replace_thread_context new_context c = record c { thread_context = new_context }

  -- `RequestContext::logger`
  abbrev pub logger_of : RequestContext D L U V → Option L
  logger_of c = c.request.response.logger

-- `UserContext::type` and `UserContext::tick`, where a class does not override them.
abbrev pub default_type : ℤ
default_type = pos 0

abbrev pub default_tick : {V : Type 0} → V → V
default_tick v = v
