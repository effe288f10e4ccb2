-- ===== src/HelloWorld/Texts.antt =====
-- The texts of a request are bytes, as long as those that it was given are: its query
-- (src/lib/request.cpp) and the names of its variables (src/lib/symbol_server.cpp).
use Prim.Native.Nat.{Ordering}
use fcgiserver.Prelude.{
  ℕ, zero, suc, ◌≡◌, List, [], ◌∷◌, Option, none, some, Bytes, All, All-append, All-take, All-drop,
  IsByte, length, get_elem?, ◌==◌, arith, Bool-cases, Option-cases, inl, inr, refl, if_both, if_ap,
}
use fcgiserver.Strings.{find, before, after}
use fcgiserver.Symbols.{
  Symbol, SymbolServer, lookup, internalize, internalize_locked, resolve, compare_symbol,
}
use fcgiserver.Utils.{unhex}
use fcgiserver.Request.Codec.{query_decode}
use fcgiserver.Request.Env.{EnvMap, env_loop, env_map}
use fcgiserver.Request.Parse.{Param, query_loop, parse_query}
use fcgiserver.Request.Response.{Response}
use fcgiserver.Request.State.{Request, load_env, query, query_string_symbol}
use fcgiserver.Request.State.Texts.{IsText, HoldsBytes, env_value-IsByte, load_env-HoldsBytes}
use fcgiserver.HelloWorld.{insert_entry, in_symbol_order}

unhex-IsByte : (c d : ℕ) {v : ℕ} → unhex c d ≡ some v → IsByte v
unfolding unhex
unhex-IsByte c d h = ground arith

pub query_decode-IsByte : (s : Bytes) → All IsByte s → All IsByte (query_decode s)
unfolding query_decode
query_decode-IsByte [] h = tt
query_decode-IsByte (c ∷ []) h = h
query_decode-IsByte (c ∷ d ∷ []) h = h
query_decode-IsByte (c ∷ d ∷ e ∷ rest) (hc, (hd, (he, hs))) =
    let decoded = query_decode-IsByte rest hs in
    let copied = query_decode-IsByte (d ∷ e ∷ rest) (hd, (he, hs)) in
    elim (Bool-cases (c == b'%')) [
      | inr plain ↦ rw plain (hc, copied)
      | inl escape ↦ elim (Option-cases (unhex d e)) [
        | inl bad ↦ rw (escape, bad, query_decode) (hc, copied)
        | inr (v, good) ↦ rw (escape, good, query_decode) (unhex-IsByte d e good, decoded)
      ]
    ]

before-IsByte : (split : Option ℕ) (s : Bytes) → All IsByte s → All IsByte (before split s)
before-IsByte none s h = h
before-IsByte (some i) s h = All-take IsByte i s h

after-IsByte : (split : Option ℕ) (s : Bytes) → All IsByte s → All IsByte (after split s)
after-IsByte none s h = tt
after-IsByte (some i) s h = All-drop IsByte (suc i) s h

-- A parameter is bytes.
abbrev pub IsTextParam : Param → Type 0
IsTextParam p = All IsByte p.0 × All IsByte p.1

query_loop-IsTextParam : (fuel : ℕ) (s : Bytes) → All IsByte s → All IsTextParam (query_loop fuel s)
unfolding query_loop
query_loop-IsTextParam zero s h = tt
query_loop-IsTextParam (suc fuel) [] h = tt
query_loop-IsTextParam (suc fuel) (c ∷ s) h =
    let split = find b'&' (c ∷ s) in
    let element = before split (c ∷ s) in
    let h' = before-IsByte split (c ∷ s) h in
    (
      (before-IsByte (find b'=' element) element h', after-IsByte (find b'=' element) element h'),
      query_loop-IsTextParam fuel (after split (c ∷ s)) (after-IsByte split (c ∷ s) h),
    )

module _ {D L : Type 0} where
  -- The names of a request's symbols and its parameters are bytes too.
  pub record IsTextual (r : Request D L) : Type 0 where
    pub bytes : HoldsBytes r
    pub names : All (All IsByte) r.symbols.strings
    pub params : All IsTextParam r.query_params

internalize-names :
    (str : Bytes) (s : SymbolServer)
    → All IsByte str
    → All (All IsByte) s.strings
    → All (All IsByte) (internalize str s).1.strings
unfolding internalize internalize_locked
internalize-names [] s h hs = hs
internalize-names (c ∷ str) s h hs = elim (Option-cases (lookup (c ∷ str) s.index)) [
  | inr (id, known) ↦ rw (known, internalize) hs
  | inl new ↦
      rw (new, internalize)
        (rw (new, internalize_locked)
          (All-append (All IsByte) s.strings ((c ∷ str) ∷ []) hs (h, tt)))
]

env_loop-names :
    (lines : List Bytes) (s : SymbolServer) (env : EnvMap)
    → All (All IsByte) lines
    → All (All IsByte) s.strings
    → All (All IsByte) (env_loop lines s env).1.strings
unfolding env_loop
env_loop-names [] s env h hs = hs
env_loop-names (line ∷ lines) s env (h, hl) hs = elim (Option-cases (find b'=' line)) [
  | inl missing ↦ rw (missing, env_loop) (env_loop-names lines s env hl hs)
  | inr (at, found) ↦
      let key = before (some at) line in
      rw (found, env_loop)
        (env_loop-names lines (internalize key s).1 _ hl
          (internalize-names key s (before-IsByte (some at) line h) hs))
]

env_map-names :
    (lines : List Bytes) (s : SymbolServer) (env : EnvMap)
    → All (All IsByte) lines
    → All (All IsByte) s.strings
    → All (All IsByte) (env_map lines s env).1.strings
unfolding env_map
env_map-names lines s [] h hs = env_loop-names lines s [] h hs
env_map-names lines s (e ∷ env) h hs = hs

get-IsByte :
    (strings : List Bytes) (i : ℕ) {str : Bytes}
    → All (All IsByte) strings
    → get_elem? strings i ≡ some str
    → All IsByte str
get-IsByte [] i h e = absurd (ground arith)
get-IsByte (x ∷ strings) zero {str} (h, hs) e = let same : x ≡ str = ground arith in rw (← same) h
get-IsByte (x ∷ strings) (suc i) (h, hs) e = get-IsByte strings i hs e

pub resolve-IsByte :
    (id : Symbol) (s : SymbolServer) → All (All IsByte) s.strings → All IsByte (resolve id s)
unfolding resolve
resolve-IsByte id s h = elim (Option-cases (get_elem? s.strings id)) [
  | inl missing ↦ rw (missing, resolve) (ground arith)
  | inr (str, found) ↦ rw (found, resolve) (get-IsByte s.strings id h found)
]

insert_entry-IsText :
    (s : SymbolServer) (entry : Symbol × Bytes) (env : EnvMap)
    → All IsByte entry.1
    → IsText env
    → IsText (insert_entry s entry env)
unfolding insert_entry
insert_entry-IsText s entry [] h hs = (h, tt)
insert_entry-IsText s entry (other ∷ env) h (ho, hs) =
    let later = insert_entry-IsText s entry env h hs in
    elim (compare_symbol entry.0 other.0 s)
      as (λ o. IsText (elim o [
        | Ordering.lt ↦ entry ∷ other ∷ env
        | Ordering.eq ↦ other ∷ insert_entry s entry env
        | Ordering.gt ↦ other ∷ insert_entry s entry env
      ])) [ Ordering.lt ↦ (h, (ho, hs)) | Ordering.eq ↦ (ho, later) | Ordering.gt ↦ (ho, later) ]

pub in_symbol_order-IsText :
    (s : SymbolServer) (env : EnvMap) → IsText env → IsText (in_symbol_order s env)
unfolding in_symbol_order
in_symbol_order-IsText s [] h = tt
in_symbol_order-IsText s (entry ∷ env) (h, hs) =
    insert_entry-IsText s entry (in_symbol_order s env) h (in_symbol_order-IsText s env hs)

module _ {D L : Type 0} where
  pub load_env-IsTextual : (r : Request D L) → IsTextual r → IsTextual (load_env r)
  load_env-IsTextual r h = record {
    bytes = load_env-HoldsBytes r h.bytes;
    names =
        unfold load_env in env_map-names r.env_lines r.symbols r.variables h.bytes.lines h.names;
    params = unfold load_env in h.params;
  }

  -- What `query` leaves of a request, and the parameters that it returns.
  abbrev Asked : List Param × Request D L → Type 0
  Asked p = All IsTextParam p.0 × IsTextual p.1

  pub query-IsTextual : (r : Request D L) → IsTextual r → Asked (query r)
  unfolding query fcgiserver.Request.State.env parse_query
  query-IsTextual r h =
      let loaded = load_env-IsTextual r h in
      let text = env_value-IsByte query_string_symbol r h.bytes in
      let found = (fcgiserver.Request.State.query_string r).0 in
      let params =
        All-append IsTextParam (load_env r).query_params (parse_query found) loaded.params
          (query_loop-IsTextParam (length found) found text) in
      if_both Asked r.query_parsed _ _ (h.params, h)
        (
          params,
          record {
            bytes = record {
              lines = loaded.bytes.lines;
              values = loaded.bytes.values;
              headers = loaded.bytes.headers;
            };
            names = loaded.names;
            params = params;
          },
        )

  abbrev pub with_response : Request D L → Response D L → Request D L
  with_response r response = record r { response = response }

  -- `query` and `env_map` do not look at the response.
  pub query-with_response :
      (r : Request D L) (response : Response D L)
      → query (with_response r response) ≡ ((query r).0, with_response (query r).1 response)
  unfolding query fcgiserver.Request.State.env load_env
  query-with_response r response =
      if_ap (λ (p : List Param × Request D L). (p.0, with_response p.1 response)) r.query_parsed _ _

  pub load_env-with_response :
      (r : Request D L) (response : Response D L)
      → load_env (with_response r response) ≡ with_response (load_env r) response
  unfolding load_env
  load_env-with_response r response = refl
