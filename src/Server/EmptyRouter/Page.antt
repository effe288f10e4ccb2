-- ===== src/Server/EmptyRouter/Page.antt =====
-- The page of a server without a router (src/lib/server.cpp).
use mathlib.Core.Path.{subst}
use fcgiserver.Prelude.{
  ◌≡◌, ◌∙◌, sym, ap, refl, Bool, true, false, [], ◌++◌, some, Bytes, codes, equal, if◌then◌else◌,
  Bool-cases, inl, inr, arith,
}
use fcgiserver.Logger.{LogLevel}
use fcgiserver.RequestContext.{RequestContext}
use fcgiserver.Request.Env.{env_value}
use fcgiserver.Request.Response.{CgiData, HeaderMap, find_header, status_symbol, write_all}
use fcgiserver.Request.Response.Sending.{response_head}
use fcgiserver.Request.State.{Request, load_env, document_uri_symbol}
use fcgiserver.Request.State.Loading.{env-load_env}
use fcgiserver.Request.State.Texts.{IsText, HoldsBytes, load_env-HoldsBytes, response-HoldsBytes}
use fcgiserver.Router.Context.{handled, not_found}
use fcgiserver.Server.Answer.{returns}
use fcgiserver.Server.Worker.Serving.{IsFresh, Ends, IsWellBehaved}
use fcgiserver.Server.EmptyRouter.{page, empty_router}
use fcgiserver.Server.EmptyRouter.Shown.{
  html_header, html_status, none_found, some-ne-none, other_recoded, opened, shown, shown-IsSent,
  shown_data, set_content_type-opened, write_texts-write_each, open_header,
}

module _ {D L : Type 0} (r : Request D L) where
  load_env-unsent : r.response.headers_sent ≡ false → (load_env r).response.headers_sent ≡ false
  unfolding load_env
  load_env-unsent h = h

  load_env-cgi_data : (load_env r).response.cgi_data ≡ r.response.cgi_data
  unfolding load_env
  load_env-cgi_data = refl

  load_env-no_headers : r.response.headers ≡ [] → (load_env r).response.headers ≡ []
  unfolding load_env
  load_env-no_headers h = h

abbrev pub is_root : {D L : Type 0} → Request D L → Bool
is_root r = equal (env_value document_uri_symbol (load_env r).variables) (codes "/")

module _ {D L U V : Type 0} (log_message : LogLevel → Bytes → L → L) (cgi : CgiData D)
    (iterate : HeaderMap → HeaderMap) where
  empty_router-shown :
      (c : RequestContext D L U V)
      → IsFresh c.request
      → empty_router log_message cgi iterate c
        ≡ some (
          returns (if is_root c.request then handled else not_found),
          record c {
            request = shown log_message cgi iterate (is_root c.request) (load_env c.request);
          },
        )
  unfolding empty_router
  empty_router-shown c fresh =
      let r = load_env c.request in
      let typed =
        set_content_type-opened log_message cgi iterate r (load_env-unsent c.request fresh.unsent)
          (load_env-no_headers c.request fresh.no_headers) in
      rw (env-load_env document_uri_symbol c.request) (elim (Bool-cases (is_root c.request)) [
        | inl at_root ↦ rw (
          at_root,
          typed,
          write_texts-write_each log_message cgi iterate page
              (record r { response = opened log_message cgi iterate r }),
        )
        | inr elsewhere ↦ rw elsewhere
      ])

  shown-Ends :
      (c : RequestContext D L U V) (at_root : Bool)
      → HoldsBytes c.request
      → c.request.response.headers_sent ≡ false
      → c.request.response.headers ≡ []
      → Ends (
          some (
            returns (if at_root then handled else not_found),
            record c { request = shown log_message cgi iterate at_root c.request },
          ))
  shown-Ends c true h unsent no_headers =
      let (sent, headers, _) = shown-IsSent log_message cgi iterate c.request unsent in
      let given : find_header status_symbol
            (shown log_message cgi iterate true c.request).response.headers
          ≡ some (codes "200") =
        ap (find_header status_symbol) headers ∙ html_status in
      record {
        outcome = returns handled;
        next = record c { request = shown log_message cgi iterate true c.request };
        returns = refl;
        text = tt;
        bytes =
            response-HoldsBytes c.request _ h
              (subst IsText (sym headers) (open_header log_message cgi iterate c.request));
        shows = λ status found. other_recoded status (sym given ∙ found);
        there = λ _ missing. some-ne-none (sym given ∙ missing);
      }
  shown-Ends c false h unsent no_headers = record {
    outcome = returns not_found;
    next = c;
    returns = refl;
    text = tt;
    bytes = h;
    shows = λ status given.
        absurd (ground (arith, none_found c.request.response.headers no_headers, given));
    there = λ sent. absurd (ground arith);
  }

  -- The router of a server without one ends for every new request.
  pub empty_router-IsWellBehaved :
      IsWellBehaved (empty_router {U = U} {V = V} log_message cgi iterate)
  empty_router-IsWellBehaved c fresh =
      let r = load_env c.request in
      rw (empty_router-shown c fresh) (
        shown-Ends (record c { request = r }) (is_root c.request)
          (load_env-HoldsBytes c.request fresh.bytes) (load_env-unsent c.request fresh.unsent)
          (load_env-no_headers c.request fresh.no_headers))

  -- For a request of bytes with which nothing was done: at the URI / the empty router writes its
  -- page, with the type text/html; elsewhere it finds nothing and writes nothing.
  pub empty_router-page :
      (c : RequestContext D L U V)
      → IsFresh c.request
      → (next : Request D L) × (empty_router log_message cgi iterate c
          ≡ some (
            returns (if is_root c.request then handled else not_found),
            record c { request = next },
          ))
        × (next.response.cgi_data ≡ (
            if is_root c.request
            then write_all cgi
                (response_head (load_env c.request).symbols iterate html_header ++ page)
                c.request.response.cgi_data
            else c.request.response.cgi_data))
  empty_router-page c fresh = (
    shown log_message cgi iterate (is_root c.request) (load_env c.request),
    empty_router-shown c fresh,
    shown_data log_message cgi iterate (is_root c.request) (load_env c.request)
          (load_env-unsent c.request fresh.unsent)
        ∙ rw (load_env-cgi_data c.request),
  )
