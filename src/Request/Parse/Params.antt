-- ===== src/Request/Parse/Params.antt =====
-- Query strings, ports and encodings.
use fcgiserver.Prelude.{
  ℕ, zero, suc, ◌≤◌, ◌<◌, ◌^◌, ◌≡◌, ◌≢◌, ◌∙◌, ap, refl, List, [], ◌∷◌, ◌++◌, append-nil,
  length-append, take-length-append, drop, ◌==◌, false, none, some, Bytes, length, Lacks, All,
  All-append, arith,
}
use fcgiserver.Prelude.Int.{pos}
use fcgiserver.Digits.{print}
use fcgiserver.Digits.RoundTrip.{from_chars-print}
use fcgiserver.Strings.{find, before, after}
use fcgiserver.Strings.Split.{IsFilled}
use fcgiserver.Request.Parse.{Param, split_param, query_loop, parse_query, parse_port}

find-append : (b : ℕ) (p rest : Bytes) → Lacks b p → find b (p ++ (b ∷ rest)) ≡ some (length p)
unfolding find
find-append b [] rest _ = ground arith
find-append b (c ∷ p) rest (n, h) =
    let same : (c == b) ≡ false = ground arith in rw (same, find-append b p rest h)

find-none : (b : ℕ) (p : Bytes) → Lacks b p → find b p ≡ none
unfolding find
find-none b [] _ = refl
find-none b (c ∷ p) (n, h) =
    let same : (c == b) ≡ false = ground arith in rw (same, find-none b p h)

drop-length-append :
    (p : Bytes) (b : ℕ) (rest : Bytes) → drop (suc (length p)) (p ++ (b ∷ rest)) ≡ rest
drop-length-append [] b rest = refl
drop-length-append (c ∷ p) b rest = drop-length-append p b rest

-- A parameter as it stands in a query string.
abbrev pub spell_param : Param → Bytes
spell_param (key, value) = key ++ (b'=' ∷ value)

-- A key holds no equals sign, and neither part holds an ampersand.
pub record IsParam (p : Param) : Type 0 where
  pub key_ends : Lacks b'=' p.0
  pub key_joins : Lacks b'&' p.0
  pub value_joins : Lacks b'&' p.1

-- Parameters with an ampersand between any two.
abbrev pub spell_query : List Param → Bytes
spell_query [] = []
spell_query (p ∷ []) = spell_param p
spell_query (p ∷ q ∷ ps) = spell_param p ++ (b'&' ∷ spell_query (q ∷ ps))

split_param-spell_param : (p : Param) → IsParam p → split_param (spell_param p) ≡ p
split_param-spell_param (key, value) h = rw (
  find-append b'=' key value h.key_ends,
  take-length-append key (b'=' ∷ value),
  drop-length-append key b'=' value,
)

spell_param-Lacks : (p : Param) → IsParam p → Lacks b'&' (spell_param p)
spell_param-Lacks (key, value) h =
    All-append (λ (c : ℕ). c ≢ b'&') key (b'=' ∷ value) h.key_joins (omega arith, h.value_joins)

query_loop_step :
    (fuel : ℕ) (s : Bytes)
    → IsFilled s
    → query_loop (suc fuel) s
      ≡ split_param (before (find b'&' s) s) ∷ query_loop fuel (after (find b'&' s) s)
unfolding query_loop
query_loop_step fuel [] f = absurd f
query_loop_step fuel (c ∷ s) f = refl

spell_param-IsFilled : (p : Param) (rest : Bytes) → IsFilled (spell_param p ++ rest)
spell_param-IsFilled ([], value) rest = tt
spell_param-IsFilled (c ∷ key, value) rest = tt

query_loop_nil : (fuel : ℕ) → query_loop fuel [] ≡ []
unfolding query_loop
query_loop_nil zero = refl
query_loop_nil (suc fuel) = refl

query_loop-param :
    (fuel : ℕ) (p : Param) (rest : Bytes)
    → IsParam p
    → query_loop (suc fuel) (spell_param p ++ (b'&' ∷ rest)) ≡ p ∷ query_loop fuel rest
query_loop-param fuel p rest h =
    let text = spell_param p in
    rw (
      query_loop_step fuel (text ++ (b'&' ∷ rest)) (spell_param-IsFilled p (b'&' ∷ rest)),
      find-append b'&' text rest (spell_param-Lacks p h),
      take-length-append text (b'&' ∷ rest),
      drop-length-append text b'&' rest,
      split_param-spell_param p h,
    )

query_loop_last :
    (fuel : ℕ) (p : Param) → IsParam p → query_loop (suc fuel) (spell_param p) ≡ p ∷ []
query_loop_last fuel p h = rw (
  query_loop_step fuel (spell_param p) (rw append-nil at (spell_param-IsFilled p [])),
  find-none b'&' (spell_param p) (spell_param-Lacks p h),
  split_param-spell_param p h,
  query_loop_nil fuel,
)

query_loop-spell_query :
    (ps : List Param) (fuel : ℕ)
    → All IsParam ps
    → length (spell_query ps) ≤ fuel
    → query_loop fuel (spell_query ps) ≡ ps
query_loop-spell_query [] fuel _ l = query_loop_nil fuel
query_loop-spell_query ((key, value) ∷ []) zero h l =
    absurd (omega (arith, length-append key (b'=' ∷ value)))
query_loop-spell_query (p ∷ []) (suc fuel) (h, _) l = query_loop_last fuel p h
query_loop-spell_query (p ∷ q ∷ ps) zero h l =
    absurd (omega (arith, length-append (spell_param p) (b'&' ∷ spell_query (q ∷ ps))))
query_loop-spell_query (p ∷ q ∷ ps) (suc fuel) (h, hs) l =
    query_loop-param fuel p (spell_query (q ∷ ps)) h
    ∙ ap (◌∷◌ p) (
        query_loop-spell_query (q ∷ ps) fuel hs
          (omega (arith, length-append (spell_param p) (b'&' ∷ spell_query (q ∷ ps)))))

-- A query string that spells parameters is read as those parameters, in their order, if no key holds
-- an equals sign and no part an ampersand.
pub parse_query-spell_query : (ps : List Param) → All IsParam ps → parse_query (spell_query ps) ≡ ps
unfolding parse_query
parse_query-spell_query ps h = query_loop-spell_query ps (length (spell_query ps)) h (omega arith)

-- Every port that fits 16 bits is read back from its decimal digits.
pub parse_port-print : (port : ℕ) → port < 2 ^ 16 → parse_port (print 10 port) ≡ pos port
unfolding parse_port
parse_port-print port h = rw (from_chars-print (2 ^ 16) port h, parse_port)
