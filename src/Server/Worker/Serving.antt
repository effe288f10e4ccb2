-- ===== src/Server/Worker/Serving.antt =====
-- A request that a thread has accepted is served (src/lib/server.cpp).
use fcgiserver.Prelude.{
  ◌≡◌, ◌≢◌, ◌∙◌, refl, true, false, List, [], Option, none, some, Bytes, All, IsByte,
}
use fcgiserver.Logger.{LogLevel}
use fcgiserver.RequestContext.{RequestContext}
use fcgiserver.Request.Response.{CgiData, HeaderMap, find_header, status_symbol, destroy}
use fcgiserver.Request.Response.Sending.{destroy-write_all}
use fcgiserver.Request.Env.{env_value}
use fcgiserver.Request.State.{Request, request_method_symbol, document_uri_symbol}
use fcgiserver.Request.State.Texts.{HoldsBytes}
use fcgiserver.Server.Answer.{Outcome, Handler, route_result, answer}
use fcgiserver.Server.Answer.Report.{HasBytes, reported}
use fcgiserver.Server.Answer.Settled.{HasStatus}
use fcgiserver.Server.Answer.Closing.{Answered, answer-Answered}
use fcgiserver.Server.Worker.{Worker, context_for, publish, serve}

-- A request that nothing was done with.
pub record IsFresh {D L : Type 0} (r : Request D L) : Type 0 where
  pub bytes : HoldsBytes r
  pub unsent : r.response.headers_sent ≡ false
  pub no_headers : r.response.headers ≡ []

-- A router ends, by a result or an exception, and leaves a request that can be answered.
pub record Ends {D L U V : Type 0} (o : Option (Outcome × RequestContext D L U V)) : Type 0 where
  pub outcome : Outcome
  pub next : RequestContext D L U V
  pub returns : o ≡ some (outcome, next)
  pub text : HasBytes outcome
  pub bytes : HoldsBytes next.request
  pub shows : HasStatus next.request.response.headers
  pub there :
      next.request.response.headers_sent ≡ true
      → find_header status_symbol next.request.response.headers ≢ none

-- The router does so for every new request.
abbrev pub IsWellBehaved : {D L U V : Type 0} → Handler D L U V → Type 0
IsWellBehaved {D} {L} {U} {V} router =
    (c : RequestContext D L U V) → IsFresh c.request → Ends (router c)

module _ {D L : Type 0} (log_message : LogLevel → Bytes → L → L) (cgi : CgiData D)
    (iterate : HeaderMap → HeaderMap) where
  pub destroy_sent :
      (r : Request D L)
      → r.response.headers_sent ≡ true
      → destroy log_message r.symbols
          (env_value request_method_symbol r.variables)
          (env_value document_uri_symbol r.variables)
          cgi
          iterate
          r.response
        ≡ some r.response.cgi_data
  destroy_sent r sent =
      destroy-write_all log_message r.symbols (env_value request_method_symbol r.variables)
        (env_value document_uri_symbol r.variables) cgi iterate r.response
      ∙ rw sent

module _ {D L U V : Type 0} (log_message : LogLevel → Bytes → L → L) (cgi : CgiData D)
    (iterate : HeaderMap → HeaderMap) where
  -- A request is served: the router was called, and its answer is the last of the thread's.
  pub record Serves (lines : List Bytes) (d : D) (w : Worker D L U V) (o : Option (Worker D L U V))
      : Type 0 where
    pub next : Worker D L U V
    pub returns : o ≡ some next
    pub ends : Ends (w.shared.router (context_for lines d w))
    pub answered :
        Answered log_message cgi iterate
          (route_result ends.outcome)
          (reported log_message w.id ends.outcome ends.next.request)
          (answer log_message cgi iterate w.id ends.outcome ends.next.request)
    pub published : next ≡ publish ends.next answered.next answered.next.response.cgi_data w

  pub serve-Serves :
      (lines : List Bytes) (d : D) (w : Worker D L U V)
      → All (All IsByte) lines
      → IsWellBehaved w.shared.router
      → Serves lines d w (serve log_message cgi iterate lines d w)
  unfolding serve
  serve-Serves lines d w bytes well =
      let c = context_for lines d w in
      let fresh : IsFresh c.request = record {
        bytes = record { lines = bytes; values = tt; headers = tt };
        unsent = refl;
        no_headers = refl;
      } in
      let e = well c fresh in
      let a =
        answer-Answered log_message cgi iterate w.id e.outcome e.next.request e.bytes e.text e.shows
          e.there in
      rw (e.returns, a.returns, destroy_sent log_message cgi iterate a.next a.sent)
        (record {
          next = publish e.next a.next a.next.response.cgi_data w;
          returns = refl;
          ends = e;
          answered = a;
          published = refl;
        })
