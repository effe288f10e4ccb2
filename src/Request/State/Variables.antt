-- ===== src/Request/State/Variables.antt =====
-- The variables of the environment, kept under symbols, against their names (src/lib/request.cpp).
use fcgiserver.Prelude.{
  ◌+◌, ◌^◌, ◌<◌, ◌≡◌, ◌∙◌, sym, ap, List, [], ◌∷◌, Option, none, some, Bytes, length, equal,
  equal_iff, ==_iff, ◌==◌, if◌then◌else◌, arith, Bool-cases, Option-cases, inl, inr,
}
use fcgiserver.Strings.{find, before, after}
use fcgiserver.Symbols.{Symbol, SymbolServer, lookup, internalize}
use fcgiserver.Symbols.Table.{IsConsistent}
use fcgiserver.Symbols.Interning.{internalize-Learns}
use fcgiserver.Symbols.Compare.{length-internalize-le}
use fcgiserver.Request.Response.{find_header, emplace, or_empty}
use fcgiserver.Request.Response.Headers.{first, first-none, first_assoc, find_header-emplace}
use fcgiserver.Request.Env.{EnvMap, env_loop, env_map, env_value}

-- The value of a variable, by its name: what follows the first equals sign of the first line that
-- has the name before it.
unfoldable pub find_line : Bytes → List Bytes → Option Bytes
find_line name [] = none
find_line name (line ∷ lines) = elim (find b'=' line) [
  | none ↦ find_line name lines
  | some pos ↦
      if equal (before (some pos) line) name
      then some (after (some pos) line)
      else find_line name lines
]

-- Two texts that have symbols in a table have the same symbol exactly if they are equal.
same_symbols :
    (s : SymbolServer) (a b : Bytes) (i j : Symbol)
    → IsConsistent s
    → lookup a s.index ≡ some i
    → lookup b s.index ≡ some j
    → (i == j) ≡ equal a b
same_symbols s a b i j v at_a at_b = elim (Bool-cases (i == j)) [
  | inl same ↦
      let e : i ≡ j = (==_iff i j).0 same in
      let texts : a ≡ b = ground (arith, (v.agrees a i).0 at_a, (v.agrees b j).0 at_b) in
      same ∙ sym ((equal_iff a b).1 texts)
  | inr differs ↦ elim (Bool-cases (equal a b)) [
    | inl texts ↦
        let e : a ≡ b = (equal_iff a b).0 texts in
        let at_b' : lookup b s.index ≡ some i = rw (← e) at_a in absurd (ground arith)
    | inr others ↦ differs ∙ sym others
  ]
]

first_single :
    (id k : Symbol) (text : Bytes) (later : Option Bytes)
    → first (find_header k ((id, text) ∷ [])) later ≡ (if id == k then some text else later)
unfolding find_header
first_single id k text later = elim (Bool-cases (id == k)) [
  | inl same ↦ rw same
  | inr differs ↦ rw differs
]

-- What reading lines keeps, and finds for the variable of one name.
pub record Reads (name : Bytes) (k : Symbol) (env : EnvMap) (line : Option Bytes)
    (result : EnvMap × SymbolServer) : Type 0 where
  pub consistent : IsConsistent result.1
  pub known : lookup name result.1.index ≡ some k
  pub value : find_header k result.0 ≡ first (find_header k env) line

pub env_loop-Reads :
    (name : Bytes) (k : Symbol) (lines : List Bytes) (s : SymbolServer) (env : EnvMap)
    → IsConsistent s
    → lookup name s.index ≡ some k
    → length s.strings + length lines < 2 ^ 32
    → Reads name k env (find_line name lines) (env_loop lines s env)
unfolding env_loop find_line
env_loop-Reads name k [] s env v h room = record {
  consistent = v;
  known = h;
  value = first-none (find_header k env);
}
env_loop-Reads name k (line ∷ lines) s env v h room = elim (Option-cases (find b'=' line)) [
  | inl missing ↦
      rw (missing, env_loop, find_line) (env_loop-Reads name k lines s env v h (omega arith))
  | inr (at, found) ↦
      let key = before (some at) line in
      let text = after (some at) line in
      let id = (internalize key s).0 in
      let l = internalize-Learns key s v (omega arith) in
      let known = l.kept name k h in
      let same : (id == k) ≡ equal key name =
        same_symbols (internalize key s).1 key name id k l.consistent l.found known in
      let rest =
        env_loop-Reads name k lines (internalize key s).1 (emplace id text env) l.consistent known
          (omega (arith, length-internalize-le key s)) in
      rw (found, env_loop, find_line)
        (record {
          consistent = rest.consistent;
          known = rest.known;
          value =
              rest.value
              ∙ rw (find_header-emplace id k text env) (
                  first_assoc (find_header k env) (find_header k ((id, text) ∷ []))
                    (find_line name lines)
                  ∙ ap (first (find_header k env)) (
                      first_single id k text (find_line name lines)
                      ∙ ap (λ b. if b then some text else find_line name lines) same));
        })
]

-- In a consistent table, if its numbers suffice, the variable of a name that has a symbol is what the first line for the name gives it: names are
-- told apart by their symbols as by their texts, and a later line changes nothing.
pub env_value-find_line :
    (name : Bytes) (k : Symbol) (lines : List Bytes) (s : SymbolServer)
    → IsConsistent s
    → lookup name s.index ≡ some k
    → length s.strings + length lines < 2 ^ 32
    → env_value k (env_map lines s []).0 ≡ or_empty (find_line name lines)
unfolding env_value env_map find_header
env_value-find_line name k lines s v h room =
    ap or_empty (env_loop-Reads name k lines s [] v h room).value
