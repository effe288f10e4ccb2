-- ===== src/Request/Response/Headers.antt =====
-- What the headers of a request are after calls of `set_header` (src/lib/request.cpp).
use mathlib.Core.List.{map}
use fcgiserver.Prelude.{
  ◌≡◌, ◌∙◌, refl, sym, ap, Bool, true, false, List, [], ◌∷◌, ◌++◌, Option, none, some, Bytes,
  concat, All, IsByte, ◌==◌, Bool-cases, inl, inr, ◌>>=◌, arith, append-nil,
}
use fcgiserver.Symbols.{Symbol, SymbolServer}
use fcgiserver.Logger.{LogLevel, error, log}
use fcgiserver.Logger.Stream.{recoded, log_stream-log}
use fcgiserver.Request.Response.{
  HeaderMap, find_header, emplace, Response, warning_texts, set_header,
}

abbrev pub first : Option Bytes → Option Bytes → Option Bytes
first none later = later
first (some value) later = some value

pub first-none : (a : Option Bytes) → a ≡ first a none
first-none none = refl
first-none (some value) = refl

pub first_assoc : (a b c : Option Bytes) → first (first a b) c ≡ first a (first b c)
first_assoc none b c = refl
first_assoc (some value) b c = refl

find_header-append :
    (k : Symbol) (headers later : HeaderMap)
    → find_header k (headers ++ later) ≡ first (find_header k headers) (find_header k later)
unfolding find_header
find_header-append k [] later = refl
find_header-append k ((other, old) ∷ headers) later = elim (Bool-cases (other == k)) [
  | inl here ↦ rw here
  | inr there ↦ rw there (find_header-append k headers later)
]

-- A search finds the value that was there, or else the one that is set.
pub find_header-emplace :
    (key k : Symbol) (value : Bytes) (headers : HeaderMap)
    → find_header k (emplace key value headers)
      ≡ first (find_header k headers) (find_header k ((key, value) ∷ []))
unfolding find_header emplace
find_header-emplace key k value [] = refl
find_header-emplace key k value ((other, old) ∷ headers) = elim (Bool-cases (other == key)) [
  | inl same ↦ elim (Bool-cases (other == k)) [
    | inl here ↦ rw (same, here)
    | inr there ↦
        let miss : (key == k) ≡ false = ground arith in
        rw (same, there, miss) (first-none (find_header k headers))
  ]
  | inr differs ↦ elim (Bool-cases (other == k)) [
    | inl here ↦ rw (differs, here)
    | inr there ↦ rw (differs, there) (find_header-emplace key k value headers)
  ]
]

find_header-emplace_append :
    (key k : Symbol) (value : Bytes) (headers later : HeaderMap)
    → find_header k (emplace key value headers ++ later)
      ≡ find_header k (headers ++ (key, value) ∷ later)
find_header-emplace_append key k value headers later =
    find_header-append k (emplace key value headers) later
    ∙ rw (find_header-emplace key k value headers) (
        first_assoc (find_header k headers) (find_header k ((key, value) ∷ []))
          (find_header k later)
        ∙ ap (first (find_header k headers)) (sym (find_header-append k ((key, value) ∷ []) later))
        ∙ sym (find_header-append k headers ((key, value) ∷ later)))

module _ {D L : Type 0} (log_message : LogLevel → Bytes → L → L) (s : SymbolServer)
    (method uri : Bytes) where
  -- A sequence of calls of `set_header`, with what each returns.
  abbrev pub set_each : HeaderMap → Response D L → Option (List Bool × Response D L)
  set_each [] r = some ([], r)
  set_each ((key, value) ∷ rest) r = do
    (ok, r') ← set_header log_message s method uri key value r
    (oks, r'') ← set_each rest r'
    some (ok ∷ oks, r'')

  -- Before the headers are sent, each call of `set_header` returns true, and afterwards the value of
  -- a header is the first that it was given.
  pub set_each-find_header :
      (values : HeaderMap) (r : Response D L)
      → r.headers_sent ≡ false
      → (headers : HeaderMap) × (set_each values r
          ≡ some (map (λ _. true) values, record r { headers = headers }))
        × ((key : Symbol) → find_header key headers ≡ find_header key (r.headers ++ values))
  unfolding set_header
  set_each-find_header [] r h =
      (r.headers, refl, λ k. ap (find_header k) (sym (append-nil r.headers)))
  set_each-find_header ((key, value) ∷ values) r h =
      let r' = record r { headers = emplace key value r.headers; headers_sent = false } in
      let (headers, more, found) = set_each-find_header values r' refl in
      (
        headers,
        rw (h, set_header) (rw more),
        λ k. found k ∙ find_header-emplace_append key k value r.headers values,
      )

  set_each-silent :
      (values : HeaderMap) (r : Response D L)
      → r.headers_sent ≡ true
      → r.headers_sent_warning ≡ true
      → set_each values r ≡ some (map (λ _. false) values, r)
  unfolding set_header
  set_each-silent [] r sent warned = refl
  set_each-silent ((key, value) ∷ values) r sent warned =
      let ignored : set_header log_message s method uri key value r ≡ some (false, r) =
        simp (sent, warned) in
      rw ignored (rw (set_each-silent values r sent warned))

  -- Once the headers are sent, if no warning was given and its texts are bytes, the calls of
  -- `set_header` all return false and change no header. The first logs the warning, and the others
  -- log nothing.
  pub set_each_sent :
      (key : Symbol) (value : Bytes) (values : HeaderMap) (r : Response D L)
      → r.headers_sent ≡ true
      → r.headers_sent_warning ≡ false
      → All (All IsByte) (warning_texts key s method uri)
      → set_each ((key, value) ∷ values) r
        ≡ some (
          map (λ _. false) ((key, value) ∷ values),
          record r {
            logger =
                log log_message error
                  (concat (map recoded (warning_texts key s method uri)))
                  r.logger;
            headers_sent_warning = true;
          },
        )
  unfolding set_header
  set_each_sent key value values r sent silent bytes =
      rw (sent, silent, set_header)
        (rw (log_stream-log log_message error (warning_texts key s method uri) r.logger bytes) (
          rw (
            set_each-silent values
              (record r {
                logger =
                    log log_message error (concat (map recoded (warning_texts key s method uri)))
                      r.logger;
                headers_sent_warning = true;
                headers_sent = true;
              })
              refl refl)))
