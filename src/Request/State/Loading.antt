-- ===== src/Request/State/Loading.antt =====
-- The environment of a request is read once (src/lib/request.cpp).
use fcgiserver.Prelude.{
  ◌≡◌, ◌≢◌, ◌∙◌, sym, ap, refl, List, [], ◌∷◌, some, Bytes, arith, Option-cases, inl, inr, ◌⊎◌,
}
use fcgiserver.Strings.{find, before, after}
use fcgiserver.Symbols.{Symbol, SymbolServer, internalize}
use fcgiserver.Request.Response.{emplace}
use fcgiserver.Request.Env.{EnvMap, env_loop, env_map, env_value}
use fcgiserver.Request.State.{Request, load_env, env}

emplace-ne-nil : (key : Symbol) (value : Bytes) (env : EnvMap) → emplace key value env ≢ []
unfolding emplace
emplace-ne-nil key value [] = ground arith
emplace-ne-nil key value ((k, old) ∷ env) = ground arith

env_loop-ne-nil :
    (lines : List Bytes) (s : SymbolServer) (env : EnvMap)
    → env ≢ []
    → (env_loop lines s env).0 ≢ []
unfolding env_loop
env_loop-ne-nil [] s env h = h
env_loop-ne-nil (line ∷ lines) s env h = elim (Option-cases (find b'=' line)) [
  | inl missing ↦ rw (missing, env_loop) (env_loop-ne-nil lines s env h)
  | inr (at, found) ↦
      let key = before (some at) line in
      rw (found, env_loop)
        (env_loop-ne-nil lines (internalize key s).1
          (emplace (internalize key s).0 (after (some at) line) env)
          (emplace-ne-nil (internalize key s).0 (after (some at) line) env))
]

-- If no variable was read, no name was interned either.
env_loop-nil :
    (lines : List Bytes) (s : SymbolServer)
    → (env_loop lines s []).0 ≡ []
    → env_loop lines s [] ≡ ([], s)
unfolding env_loop
env_loop-nil [] s h = refl
env_loop-nil (line ∷ lines) s h = elim (Option-cases (find b'=' line)) [
  | inl missing ↦ rw (missing, env_loop) (env_loop-nil lines s (rw (missing, env_loop) at h))
  | inr (at, found) ↦
      let key = before (some at) line in
      absurd (
        env_loop-ne-nil lines (internalize key s).1
          (emplace (internalize key s).0 (after (some at) line) [])
          (emplace-ne-nil (internalize key s).0 (after (some at) line) [])
          (rw (found, env_loop) at h))
]

pub env_map-cases :
    (lines : List Bytes) (s : SymbolServer) (env : EnvMap) (s' : SymbolServer)
    → ((env ≡ []) × (s' ≡ s)) ⊎ ((env, s') ≡ env_loop lines s [])
    → env_map lines s' env ≡ env_loop lines s []
unfolding env_map
env_map-cases lines s [] s' (inl (_, same)) = rw same
env_map-cases lines s (e ∷ env) s' (inl (h, _)) = cc
env_map-cases lines s [] s' (inr h) =
    let nothing : (env_loop lines s []).0 ≡ [] = sym (ap (λ p. p.0) h) in
    let same : s' ≡ s = ap (λ p. p.1) (h ∙ env_loop-nil lines s nothing) in rw same
env_map-cases lines s (e ∷ env) s' (inr h) = h

env_map-env_map :
    (lines : List Bytes) (s : SymbolServer) (env : EnvMap)
    → let p = env_map lines s env in env_map lines p.1 p.0 ≡ p
unfolding env_map
env_map-env_map lines s [] =
    env_map-cases lines s (env_loop lines s []).0 (env_loop lines s []).1 (inr refl)
env_map-env_map lines s (e ∷ env) = refl

-- The environment is read once.
pub load_env-load_env : {D L : Type 0} (r : Request D L) → load_env (load_env r) ≡ load_env r
unfolding load_env
load_env-load_env r =
    ap (λ (p : EnvMap × SymbolServer). record r { symbols = p.1; variables = p.0 })
      (env_map-env_map r.env_lines r.symbols r.variables)

module _ {D L : Type 0} (key : Symbol) (r : Request D L) where
  pub env-load_env : env key r ≡ (env_value key (load_env r).variables, load_env r)
  unfolding env
  env-load_env = refl

  pub env_again : env key (load_env r) ≡ (env_value key (load_env r).variables, load_env r)
  unfolding env
  env_again = ap (λ (r' : Request D L). (env_value key r'.variables, r')) (load_env-load_env r)
