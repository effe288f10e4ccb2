-- ===== src/Request/State/Texts.antt =====
-- A request whose environment and headers are bytes, as the server hands them over: what is read from
-- it is bytes too (src/lib/request.cpp), and can be logged.
use fcgiserver.Prelude.{
  ℕ, suc, ◌<◌, ◌^◌, ◌≡◌, List, [], ◌∷◌, some, Bytes, All, All-drop, IsByte, ◌==◌, arith, Bool-cases,
  Option-cases, inl, inr,
}
use fcgiserver.Prelude.Int.{ℤ, pos, negsuc}
use fcgiserver.Strings.{find, before, after}
use fcgiserver.Digits.{print, from_chars}
use fcgiserver.Digits.Bounds.{All-print}
use fcgiserver.Formatter.Numbers.{IsSigned, w32, print_int}
use fcgiserver.Symbols.{Symbol, SymbolServer, internalize}
use fcgiserver.Request.Parse.{parse_port}
use fcgiserver.Request.Response.{HeaderMap, find_header, emplace, or_empty, Response, header}
use fcgiserver.Request.Env.{EnvMap, env_loop, env_map, env_value}
use fcgiserver.Request.State.{Request, load_env, env}

pub print-IsByte : (n : ℕ) → All IsByte (print 10 n)
print-IsByte = All-print IsByte (λ v h. ground arith) 10 (omega arith) (omega arith)

-- The values of a map are bytes.
abbrev pub IsText : HeaderMap → Type 0
IsText = All (λ (entry : Symbol × Bytes). All IsByte entry.1)

pub emplace-IsText :
    (key : Symbol) (value : Bytes) (headers : HeaderMap)
    → All IsByte value
    → IsText headers
    → IsText (emplace key value headers)
unfolding emplace
emplace-IsText key value [] h _ = (h, tt)
emplace-IsText key value ((k, old) ∷ headers) h (t, ts) = elim (Bool-cases (k == key)) [
  | inl same ↦ rw same (t, ts)
  | inr differs ↦ rw differs (t, emplace-IsText key value headers h ts)
]

pub find_header-IsByte :
    (key : Symbol) (headers : HeaderMap)
    → IsText headers
    → All IsByte (or_empty (find_header key headers))
unfolding find_header
find_header-IsByte key [] _ = tt
find_header-IsByte key ((k, old) ∷ headers) (t, ts) = elim (Bool-cases (k == key)) [
  | inl same ↦ rw same t
  | inr differs ↦ rw differs (find_header-IsByte key headers ts)
]

env_loop-IsText :
    (lines : List Bytes) (s : SymbolServer) (env : EnvMap)
    → All (All IsByte) lines
    → IsText env
    → IsText (env_loop lines s env).0
unfolding env_loop
env_loop-IsText [] s env _ t = t
env_loop-IsText (line ∷ lines) s env (h, hs) t = elim (Option-cases (find b'=' line)) [
  | inl missing ↦ rw (missing, env_loop) (env_loop-IsText lines s env hs t)
  | inr (at, found) ↦
      let key = before (some at) line in
      let text = after (some at) line in
      rw (found, env_loop)
        (env_loop-IsText lines (internalize key s).1 (emplace (internalize key s).0 text env) hs
          (emplace-IsText (internalize key s).0 text env (All-drop IsByte (suc at) line h) t))
]

env_map-IsText :
    (lines : List Bytes) (s : SymbolServer) (env : EnvMap)
    → All (All IsByte) lines
    → IsText env
    → IsText (env_map lines s env).0
unfolding env_map
env_map-IsText lines s [] h t = env_loop-IsText lines s [] h tt
env_map-IsText lines s (e ∷ env) h t = t

-- What a request holds is bytes.
pub record HoldsBytes {D L : Type 0} (r : Request D L) : Type 0 where
  pub lines : All (All IsByte) r.env_lines
  pub values : IsText r.variables
  pub headers : IsText r.response.headers

module _ {D L : Type 0} where
  pub load_env-HoldsBytes : (r : Request D L) → HoldsBytes r → HoldsBytes (load_env r)
  unfolding load_env
  load_env-HoldsBytes r h = record {
    lines = h.lines;
    values = env_map-IsText r.env_lines r.symbols r.variables h.lines h.values;
    headers = h.headers;
  }

  -- A request keeps its environment while its response changes.
  pub response-HoldsBytes :
      (r : Request D L) (response : Response D L)
      → HoldsBytes r
      → IsText response.headers
      → HoldsBytes (record r { response = response })
  response-HoldsBytes r response h t = record { lines = h.lines; values = h.values; headers = t }

  pub env_value-IsByte :
      (key : Symbol) (r : Request D L)
      → HoldsBytes r
      → All IsByte (env_value key (load_env r).variables)
  unfolding load_env env_value
  env_value-IsByte key r h =
      find_header-IsByte key (env_map r.env_lines r.symbols r.variables).0
        (env_map-IsText r.env_lines r.symbols r.variables h.lines h.values)

  pub header-IsByte :
      (key : Symbol) (r : Request D L) → HoldsBytes r → All IsByte (header key r.response)
  header-IsByte key r h = find_header-IsByte key r.response.headers h.headers

from_chars-lt : (values : ℕ) (s : Bytes) {n : ℕ} → from_chars values s ≡ some n → n < values
unfolding from_chars
from_chars-lt values [] h = ground arith
from_chars-lt values (c ∷ s) h = ground arith

-- A port fits the int that is written to the log.
pub parse_port-IsSigned : (value : Bytes) → IsSigned w32 (parse_port value)
unfolding parse_port
parse_port-IsSigned value = elim (Option-cases (from_chars (2 ^ 16) value)) [
  | inl bad ↦ rw (bad, parse_port, IsSigned) (omega arith)
  | inr (n, good) ↦
      rw (good, parse_port, IsSigned) (omega (arith, from_chars-lt (2 ^ 16) value good))
]

pub print_int-IsByte : (i : ℤ) → All IsByte (print_int i)
print_int-IsByte (pos n) = print-IsByte n
print_int-IsByte (negsuc n) = (omega arith, print-IsByte (suc n))
