-- ===== src/Server/Answer/Report.antt =====
-- What is logged when the router throws (src/lib/server.cpp).
use mathlib.Core.List.{map}
use fcgiserver.Prelude.{
  ◌≡◌, refl, List, [], ◌∷◌, Option, none, some, Bytes, codes, concat, All, IsByte, arith,
}
use fcgiserver.Prelude.{ℕ}
use fcgiserver.Digits.{print}
use fcgiserver.Logger.{LogLevel, error, log}
use fcgiserver.Logger.Stream.{recoded, log_stream-log}
use fcgiserver.Request.Env.{env_value}
use fcgiserver.Request.State.{Request, load_env, request_method_symbol, document_uri_symbol}
use fcgiserver.Request.State.Loading.{env-load_env, env_again}
use fcgiserver.Request.State.Texts.{
  HoldsBytes, load_env-HoldsBytes, response-HoldsBytes, env_value-IsByte, print-IsByte,
}
use fcgiserver.Server.Answer.{Outcome, returns, throws, throws_unknown, exception_texts, report}

-- The text of a thrown exception is bytes.
abbrev pub HasBytes : Outcome → Type 0
HasBytes (throws what) = All IsByte what
HasBytes _ = Unit

-- Nothing is logged, or the texts are.
abbrev pub log_texts :
    {L : Type 0} → (LogLevel → Bytes → L → L) → Option (List Bytes) → Option L → Option L
log_texts log_message none logger = logger
log_texts log_message (some texts) logger =
    log log_message error (concat (map recoded texts)) logger

-- The request after the `try`, with what was logged.
abbrev pub reported :
    {D L : Type 0} → (LogLevel → Bytes → L → L) → ℕ → Outcome → Request D L → Request D L
reported log_message id (returns result) r = r
reported log_message id outcome r =
    let env = (load_env r).variables in
    let texts =
      exception_texts id (env_value request_method_symbol env) (env_value document_uri_symbol env)
        outcome in
    record (load_env r) {
      response = record r.response { logger = log_texts log_message texts r.response.logger };
    }

module _ {D L : Type 0} (log_message : LogLevel → Bytes → L → L) (id : ℕ) where
  -- An exception of either kind is logged as one error message with the thread, the text of the
  -- exception, the method and the URI; what the request has answered stays as it is.
  pub report-reported :
      (outcome : Outcome) (r : Request D L)
      → HoldsBytes r
      → HasBytes outcome
      → report log_message id outcome r ≡ some (reported log_message id outcome r)
  unfolding report load_env
  report-reported (returns result) r h b = refl
  report-reported (throws what) r h b =
      let method = env_value-IsByte request_method_symbol r h in
      let uri = env_value-IsByte document_uri_symbol r h in
      let env = (load_env r).variables in
      let digits = print-IsByte id in
      let texts =
        codes "Uncaught exception in thread "
        ∷ print 10 id
        ∷ codes ": "
        ∷ what
        ∷ codes " - "
        ∷ env_value request_method_symbol env
        ∷ codes " "
        ∷ env_value document_uri_symbol env
        ∷ [] in
      rw (env-load_env request_method_symbol r, env_again document_uri_symbol r)
        (rw (log_stream-log log_message error texts r.response.logger (ground arith)))
  report-reported throws_unknown r h b =
      let method = env_value-IsByte request_method_symbol r h in
      let uri = env_value-IsByte document_uri_symbol r h in
      let env = (load_env r).variables in
      let digits = print-IsByte id in
      let texts =
        codes "Uncaught unknown exception in thread "
        ∷ print 10 id
        ∷ codes " - "
        ∷ env_value request_method_symbol env
        ∷ codes " "
        ∷ env_value document_uri_symbol env
        ∷ [] in
      rw (env-load_env request_method_symbol r, env_again document_uri_symbol r)
        (rw (log_stream-log log_message error texts r.response.logger (ground arith)))

  pub reported-HoldsBytes :
      (outcome : Outcome) (r : Request D L)
      → HoldsBytes r
      → HoldsBytes (reported log_message id outcome r)
  reported-HoldsBytes (returns result) r h = h
  reported-HoldsBytes (throws what) r h =
      response-HoldsBytes (load_env r) _ (load_env-HoldsBytes r h) h.headers
  reported-HoldsBytes throws_unknown r h =
      response-HoldsBytes (load_env r) _ (load_env-HoldsBytes r h) h.headers
