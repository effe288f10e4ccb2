-- ===== src/Router/Path.antt =====
-- How a registered route and the URI of a request are cut: the loop of `add_route`
-- (src/lib/router.cpp) against that of `full_route` (src/lib/request.cpp).
use fcgiserver.Prelude.{
  ℕ, zero, suc, ◌≤◌, ◌≡◌, ◌≢◌, ◌∙◌, sym, ap, refl, false, List, [], ◌∷◌, Option, none, some, Bytes,
  drop, length, ◌==◌, arith, Bool-cases, Option-cases, inl, inr,
}
use fcgiserver.Strings.{find, before}
use fcgiserver.Strings.Split.{split, other_parts, split_first, filled, length-drop-le}
use fcgiserver.Request.Parse.{parse_route}
use fcgiserver.Request.Parse.Route.{parse_route-filled}
use fcgiserver.Router.{skip_slashes, from_slash, split_first_component, components_loop, components}

-- The assertions of `split_first_component`, for a text that may be empty.
abbrev StartsPlain : Bytes → Type 0
StartsPlain [] = Unit
StartsPlain (c ∷ s) = c ≢ b'/'

skip_slashes-StartsPlain : (s : Bytes) → StartsPlain (skip_slashes s)
unfolding skip_slashes
skip_slashes-StartsPlain [] = tt
skip_slashes-StartsPlain (c ∷ s) = elim (Bool-cases (c == b'/')) [
  | inl slash ↦ rw slash (skip_slashes-StartsPlain s)
  | inr plain ↦ rw plain (ground arith)
]

length-skip_slashes-le : (s : Bytes) → length (skip_slashes s) ≤ length s
unfolding skip_slashes
length-skip_slashes-le [] = omega arith
length-skip_slashes-le (c ∷ s) = ground (arith, length-skip_slashes-le s)

filled-skip_slashes : (s : Bytes) → filled (split b'/' (skip_slashes s)) ≡ filled (split b'/' s)
unfolding skip_slashes
filled-skip_slashes [] = refl
filled-skip_slashes (c ∷ s) = elim (Bool-cases (c == b'/')) [
  | inl slash ↦ rw slash (filled-skip_slashes s ∙ unfold split in rw slash)
  | inr plain ↦ rw plain
]

drop-find : (b : ℕ) (s : Bytes) (i : ℕ) → find b s ≡ some i → drop i s ≡ b ∷ drop (suc i) s
unfolding find
drop-find b [] i h = cc
drop-find b (c ∷ s) zero h = ground arith
drop-find b (c ∷ s) (suc i) h = ground (arith, drop-find b s i)

filled-from_slash :
    (s : Bytes) (i : Option ℕ)
    → find b'/' s ≡ i
    → filled (split b'/' (skip_slashes (from_slash i s))) ≡ filled (other_parts b'/' i s)
filled-from_slash s none h = unfold split skip_slashes in refl
filled-from_slash s (some i) h =
    filled-skip_slashes (drop i s) ∙ rw (drop-find b'/' s i h) (unfold split in refl)

length-from_slash :
    (c : ℕ) (s : Bytes) (i : Option ℕ)
    → c ≢ b'/'
    → find b'/' (c ∷ s) ≡ i
    → length (from_slash i (c ∷ s)) ≤ length s
unfolding find
length-from_slash c s none n h = omega arith
length-from_slash c s (some zero) n h = ground arith
length-from_slash c s (some (suc i)) n h = length-drop-le i s

filled-before :
    (c : ℕ) (s : Bytes) (ps : List Bytes)
    → c ≢ b'/'
    → filled (before (find b'/' (c ∷ s)) (c ∷ s) ∷ ps)
      ≡ before (find b'/' (c ∷ s)) (c ∷ s) ∷ filled ps
unfolding find
filled-before c s ps n =
    let plain : (c == b'/') ≡ false = ground arith in
    elim (Option-cases (find b'/' s)) [ inl end ↦ rw (plain, end) | inr (i, e) ↦ rw (plain, e) ]

components_loop-filled :
    (fuel : ℕ) (s : Bytes)
    → length s ≤ fuel
    → StartsPlain s
    → components_loop fuel s ≡ filled (split b'/' s)
unfolding components_loop split_first_component
components_loop-filled zero [] h n = unfold split in refl
components_loop-filled zero (c ∷ s) h n = absurd (omega arith)
components_loop-filled (suc fuel) [] h n = unfold split in refl
components_loop-filled (suc fuel) (c ∷ s) h n =
    let i = find b'/' (c ∷ s) in
    let rest = from_slash i (c ∷ s) in
    ap (◌∷◌ (before i (c ∷ s))) (
      components_loop-filled fuel (skip_slashes rest)
        (omega (arith, length-skip_slashes-le rest, length-from_slash c s i n refl))
        (skip_slashes-StartsPlain rest)
      ∙ filled-from_slash (c ∷ s) i refl)
    ∙ sym (filled-before c s (other_parts b'/' i (c ∷ s)) n)
    ∙ ap filled (sym (split_first b'/' (c ∷ s)))

-- The components under which a route is registered are the route of a request with that URI.
pub components-parse_route : (route : Bytes) → components route ≡ parse_route route
unfolding components
components-parse_route route =
    components_loop-filled (length (skip_slashes route)) (skip_slashes route) (omega arith)
      (skip_slashes-StartsPlain route)
    ∙ filled-skip_slashes route
    ∙ sym (parse_route-filled route)
