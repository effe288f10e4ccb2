-- ===== src/Request/Parse/Route.antt =====
-- The route of a URI against the URI split at its slashes.
use fcgiserver.Prelude.{
  ℕ, zero, suc, ◌≤◌, ◌≡◌, ◌∙◌, sym, ap, refl, List, [], ◌∷◌, ◌++◌, Option, none, some, Bytes,
  length, append-nil, Lacks, All, arith,
}
use fcgiserver.Strings.{find, before, after}
use fcgiserver.Strings.Split.{
  split, other_parts, split_first, split-Lacks, split-append, split_one, filled, filled-IsFilled,
  IsFilled, All-filled, length-after,
}
use fcgiserver.Request.Parse.{push_element, route_loop, parse_route}

push_element-filled : (p : Bytes) (ps : List Bytes) → push_element p (filled ps) ≡ filled (p ∷ ps)
push_element-filled [] ps = refl
push_element-filled (c ∷ p) ps = refl

filled-after :
    (i : Option ℕ) (s : Bytes) → filled (split b'/' (after i s)) ≡ filled (other_parts b'/' i s)
filled-after none s = unfold split in refl
filled-after (some i) s = refl

route_loop-filled :
    (fuel : ℕ) (uri : Bytes) → length uri ≤ fuel → route_loop fuel uri ≡ filled (split b'/' uri)
unfolding route_loop
route_loop-filled zero [] h = unfold split in refl
route_loop-filled zero (c ∷ uri) h = absurd (omega arith)
route_loop-filled (suc fuel) [] h = unfold split in refl
route_loop-filled (suc fuel) (c ∷ uri) h =
    let i = find b'/' (c ∷ uri) in
    ap (push_element (before i (c ∷ uri))) (
      route_loop-filled fuel (after i (c ∷ uri)) (omega (arith, length-after b'/' c uri))
      ∙ filled-after i (c ∷ uri))
    ∙ push_element-filled (before i (c ∷ uri)) (other_parts b'/' i (c ∷ uri))
    ∙ ap filled (sym (split_first b'/' (c ∷ uri)))

-- The route of a URI is the list of its parts between slashes that are not empty.
pub parse_route-filled : (uri : Bytes) → parse_route uri ≡ filled (split b'/' uri)
unfolding parse_route
parse_route-filled uri = route_loop-filled (length uri) uri (omega arith)

-- A component of a path: not empty, and without a slash.
abbrev pub IsComponent : Bytes → Type 0
IsComponent p = IsFilled p × Lacks b'/' p

All-× : (ps : List Bytes) → All IsFilled ps → All (Lacks b'/') ps → All IsComponent ps
All-× [] _ _ = tt
All-× (p ∷ ps) (f, fs) (l, ls) = ((f, l), All-× ps fs ls)

-- Every part of a route has at least one byte and no slash.
pub parse_route-IsComponent : (uri : Bytes) → All IsComponent (parse_route uri)
parse_route-IsComponent uri = rw (parse_route-filled uri) (
    All-× _ (filled-IsFilled (split b'/' uri))
      (All-filled (Lacks b'/') (split b'/' uri) (split-Lacks b'/' uri)))

-- The path of components, each behind a slash.
abbrev pub path : List Bytes → Bytes
path [] = []
path (p ∷ ps) = b'/' ∷ (p ++ path ps)

filled-path :
    (p : Bytes) (ps : List Bytes)
    → All IsComponent (p ∷ ps)
    → filled (split b'/' (p ++ path ps)) ≡ p ∷ ps
filled-path (c ∷ p) [] ((_, l), _) = rw (append-nil (c ∷ p), split_one b'/' (c ∷ p) l)
filled-path (c ∷ p) (q ∷ ps) ((_, l), h) =
    rw (split-append b'/' (c ∷ p) (q ++ path ps) l) (ap (◌∷◌ (c ∷ p)) (filled-path q ps h))
filled-path [] ps ((f, _), _) = absurd f

-- The route of a path is its components.
pub parse_route-path : (ps : List Bytes) → All IsComponent ps → parse_route (path ps) ≡ ps
parse_route-path [] _ = unfold parse_route in refl
parse_route-path (p ∷ ps) h =
    rw (parse_route-filled (path (p ∷ ps)), split-append b'/' [] (p ++ path ps) tt)
      (filled-path p ps h)
