-- ===== src/Symbols/Interning.antt =====
-- What `internalize`, `check_internalization` and `resolve` promise together.
use fcgiserver.Prelude.{
  ◌^◌, ◌<◌, ◌≡◌, ◌↔◌, ◌∙◌, ap, refl, [], ◌∷◌, none, some, Bytes, length, arith, Option-cases, inl,
  inr,
}
use fcgiserver.Symbols.{
  Symbol, SymbolServer, lookup, check_internalization, internalize_locked, internalize, resolve,
  maybe,
}
use fcgiserver.Symbols.Table.{
  IsConsistent, add_string-IsConsistent, lookup-add_string_self, lookup-add_string_old,
}

-- A server that has learnt `str` as `id`, and has forgotten nothing.
pub record Learns (str : Bytes) (s : SymbolServer) (id : Symbol) (s' : SymbolServer) : Type 0 where
  pub consistent : IsConsistent s'
  pub found : lookup str s'.index ≡ some id
  pub kept :
      (key : Bytes) (old : Symbol) → lookup key s.index ≡ some old → lookup key s'.index ≡ some old

known-Learns :
    (str : Bytes) (s : SymbolServer) (id : Symbol)
    → IsConsistent s
    → lookup str s.index ≡ some id
    → Learns str s id s
known-Learns str s id v h = record { consistent = v; found = h; kept = λ key old e. e }

pub internalize_locked-Learns :
    (str : Bytes) (s : SymbolServer)
    → IsConsistent s
    → length s.strings < 2 ^ 32
    → Learns str s (internalize_locked str s).0 (internalize_locked str s).1
unfolding internalize_locked
internalize_locked-Learns str s v room = elim (Option-cases (lookup str s.index)) [
  | inl new ↦
      rw (new, internalize_locked)
        (record {
          consistent = add_string-IsConsistent s str v new room;
          found = lookup-add_string_self s str v new room ∙ ap some (omega arith);
          kept = λ key old e. lookup-add_string_old s str v new room key e;
        })
  | inr (id, old) ↦ rw (old, internalize_locked) (known-Learns str s id v old)
]

-- As long as there is a number left, `internalize` learns the text, and forgets nothing.
pub internalize-Learns :
    (str : Bytes) (s : SymbolServer)
    → IsConsistent s
    → length s.strings < 2 ^ 32
    → Learns str s (internalize str s).0 (internalize str s).1
unfolding internalize
internalize-Learns [] s v room = known-Learns [] s 0 v ((v.agrees [] 0).1 v.zero_empty)
internalize-Learns (c ∷ str) s v room = elim (Option-cases (lookup (c ∷ str) s.index)) [
  | inl new ↦ rw (new, internalize) (internalize_locked-Learns (c ∷ str) s v room)
  | inr (id, old) ↦ rw (old, internalize) (known-Learns (c ∷ str) s id v old)
]

pub resolve-lookup :
    (str : Bytes) (s : SymbolServer) (id : Symbol)
    → IsConsistent s
    → lookup str s.index ≡ some id
    → resolve id s ≡ str
unfolding resolve
resolve-lookup str s id v h = rw ((v.agrees str id).0 h)

-- A text that was found is still interned as the same symbol, and the server stays as it is.
pub internalize-lookup :
    (str : Bytes) (s : SymbolServer) (id : Symbol)
    → IsConsistent s
    → lookup str s.index ≡ some id
    → internalize str s ≡ (id, s)
unfolding internalize
internalize-lookup [] s id v h =
    let known = (v.agrees [] 0).1 v.zero_empty in let same : 0 ≡ id = ground arith in rw same
internalize-lookup (c ∷ str) s id v h = rw (h, internalize)

pub maybe-lookup :
    (str : Bytes) (s : SymbolServer) (id : Symbol)
    → IsConsistent s
    → lookup str s.index ≡ some id
    → maybe str s ≡ id
unfolding check_internalization
maybe-lookup [] s id v h = let known = (v.agrees [] 0).1 v.zero_empty in ground arith
maybe-lookup (c ∷ str) s id v h = ground arith

-- A text that has no symbol is given 0.
pub maybe-unknown : (str : Bytes) (s : SymbolServer) → lookup str s.index ≡ none → maybe str s ≡ 0
unfolding check_internalization
maybe-unknown [] s h = refl
maybe-unknown (c ∷ str) s h = ground arith

-- What `internalize` returns stands for its text: the symbol resolves to the text, `maybe` finds it,
-- and interning the text again changes nothing.
pub record IsInterned (str : Bytes) (id : Symbol) (s : SymbolServer) : Type 0 where
  pub resolves : resolve id s ≡ str
  pub is_found : maybe str s ≡ id
  pub is_kept : internalize str s ≡ (id, s)

pub lookup-IsInterned :
    (str : Bytes) (s : SymbolServer) (id : Symbol)
    → IsConsistent s
    → lookup str s.index ≡ some id
    → IsInterned str id s
lookup-IsInterned str s id v h = record {
  resolves = resolve-lookup str s id v h;
  is_found = maybe-lookup str s id v h;
  is_kept = internalize-lookup str s id v h;
}

-- While there are numbers left, the symbol that a text is interned as in a consistent table stands for
-- the text, and the table stays consistent.
pub internalize-IsInterned :
    (str : Bytes) (s : SymbolServer)
    → IsConsistent s
    → length s.strings < 2 ^ 32
    → IsConsistent (internalize str s).1
      × IsInterned str (internalize str s).0 (internalize str s).1
internalize-IsInterned str s v room =
    let l = internalize-Learns str s v room in
    (
      l.consistent,
      lookup-IsInterned str (internalize str s).1 (internalize str s).0 l.consistent l.found,
    )

-- While there are numbers left, interning another text in a consistent table leaves every symbol that
-- a text had.
pub internalize-IsInterned_old :
    (str key : Bytes) (s : SymbolServer) (id : Symbol)
    → IsConsistent s
    → length s.strings < 2 ^ 32
    → lookup key s.index ≡ some id
    → IsInterned key id (internalize str s).1
internalize-IsInterned_old str key s id v room h =
    let l = internalize-Learns str s v room in
    lookup-IsInterned key (internalize str s).1 id l.consistent (l.kept key id h)

-- Two texts that are interned one after the other in a consistent table with numbers left have the
-- same symbol exactly if they are the same.
pub internalize_injective :
    (a b : Bytes) (s : SymbolServer)
    → IsConsistent s
    → length s.strings < 2 ^ 32
    → length (internalize a s).1.strings < 2 ^ 32
    → ((internalize a s).0 ≡ (internalize b (internalize a s).1).0) ↔ (a ≡ b)
internalize_injective a b s v room room' = (to, from)
  where
    s' : SymbolServer
    s' = (internalize a s).1

    first : Learns a s (internalize a s).0 s'
    first = internalize-Learns a s v room

    second : Learns b s' (internalize b s').0 (internalize b s').1
    second = internalize-Learns b s' first.consistent room'

    to : (internalize a s).0 ≡ (internalize b s').0 → a ≡ b
    to same =
        let at_a =
          (second.consistent.agrees a (internalize a s).0).0 (second.kept a _ first.found) in
        let at_b = (second.consistent.agrees b (internalize b s').0).0 second.found in
        ground (arith, rw (← same) at at_b)

    from : a ≡ b → (internalize a s).0 ≡ (internalize b s').0
    from same =
        rw (← same) (rw (internalize-lookup a s' (internalize a s).0 first.consistent first.found))
