-- ===== src/Strings/Split.antt =====
-- A text split at each separator, without indices, and what `find` has to do with it.
use fcgiserver.Prelude.{
  ℕ, suc, zero, ◌≤◌, ◌≡◌, ◌≢◌, refl, false, List, [], ◌∷◌, ◌++◌, Option, none, some, Bytes, Lacks,
  All, drop, length, arith, ◌==◌, if◌then◌else◌, Bool-cases, Option-cases, inl, inr,
}
use fcgiserver.Strings.{find, before, after}

abbrev cons_first : ℕ → List Bytes → List Bytes
cons_first c [] = (c ∷ []) ∷ []
cons_first c (p ∷ ps) = (c ∷ p) ∷ ps

-- All parts, the empty ones too; there is at least one.
unfoldable pub split : ℕ → Bytes → List Bytes
split sep [] = [] ∷ []
split sep (c ∷ s) = if c == sep then [] ∷ split sep s else cons_first c (split sep s)

pub length-drop-le : (n : ℕ) (s : Bytes) → length (drop n s) ≤ length s
length-drop-le zero s = omega arith
length-drop-le (suc n) [] = omega arith
length-drop-le (suc n) (c ∷ s) = omega (arith, length-drop-le n s)

length-after_any : (split : Option ℕ) (c : ℕ) (s : Bytes) → length (after split (c ∷ s)) ≤ length s
length-after_any none c s = omega arith
length-after_any (some i) c s = length-drop-le i s

pub length-after :
    (sep : ℕ) (c : ℕ) (s : Bytes) → length (after (find sep (c ∷ s)) (c ∷ s)) ≤ length s
length-after sep c s = length-after_any (find sep (c ∷ s)) c s

abbrev pub other_parts : ℕ → Option ℕ → Bytes → List Bytes
other_parts sep none s = []
other_parts sep (some i) s = split sep (drop (suc i) s)

-- The first part is what stands before the first separator, and what stands behind it is split.
pub split_first :
    (sep : ℕ) (s : Bytes) → split sep s ≡ before (find sep s) s ∷ other_parts sep (find sep s) s
unfolding find split
split_first sep [] = refl
split_first sep (c ∷ s) = elim (Bool-cases (c == sep)) [
  | inl cut ↦ rw cut
  | inr same ↦ elim (Option-cases (find sep s)) [
    | inl end ↦ rw (same, end) (rw (split_first sep s, end))
    | inr (i, e) ↦ rw (same, e) (rw (split_first sep s, e))
  ]
]

before-Lacks : (sep : ℕ) (s : Bytes) → Lacks sep (before (find sep s) s)
unfolding find
before-Lacks sep [] = tt
before-Lacks sep (c ∷ s) = ground (arith, before-Lacks sep s)

cons_first-Lacks :
    (sep c : ℕ) (ps : List Bytes) → c ≢ sep → All (Lacks sep) ps → All (Lacks sep) (cons_first c ps)
cons_first-Lacks sep c [] n h = ((n, tt), tt)
cons_first-Lacks sep c (p ∷ ps) n (hp, hps) = ((n, hp), hps)

-- No part holds the separator.
pub split-Lacks : (sep : ℕ) (s : Bytes) → All (Lacks sep) (split sep s)
unfolding split
split-Lacks sep [] = (tt, tt)
split-Lacks sep (c ∷ s) = elim (Bool-cases (c == sep)) [
  | inl cut ↦ rw cut (tt, split-Lacks sep s)
  | inr same ↦ rw same (cons_first-Lacks sep c (split sep s) (ground arith) (split-Lacks sep s))
]

-- A text without the separator in front of one is a part.
pub split-append :
    (sep : ℕ) (p rest : Bytes) → Lacks sep p → split sep (p ++ (sep ∷ rest)) ≡ p ∷ split sep rest
unfolding split
split-append sep [] rest _ = ground arith
split-append sep (c ∷ p) rest (n, h) =
    let same : (c == sep) ≡ false = ground arith in rw (same, split-append sep p rest h)

pub split_one : (sep : ℕ) (p : Bytes) → Lacks sep p → split sep p ≡ p ∷ []
unfolding split
split_one sep [] _ = refl
split_one sep (c ∷ p) (n, h) =
    let same : (c == sep) ≡ false = ground arith in rw (same, split_one sep p h)

-- The parts that are not empty.
abbrev pub filled : List Bytes → List Bytes
filled [] = []
filled ([] ∷ ps) = filled ps
filled ((c ∷ p) ∷ ps) = (c ∷ p) ∷ filled ps

abbrev pub IsFilled : Bytes → Type 0
IsFilled [] = ⊥
IsFilled (_ ∷ _) = Unit

pub filled-IsFilled : (ps : List Bytes) → All IsFilled (filled ps)
filled-IsFilled [] = tt
filled-IsFilled ([] ∷ ps) = filled-IsFilled ps
filled-IsFilled ((c ∷ p) ∷ ps) = (tt, filled-IsFilled ps)

pub All-filled {ℓ} : (P : Bytes → Type ℓ) (ps : List Bytes) → All P ps → All P (filled ps)
All-filled P [] _ = tt
All-filled P ([] ∷ ps) (_, h) = All-filled P ps h
All-filled P ((c ∷ p) ∷ ps) (hp, h) = (hp, All-filled P ps h)
