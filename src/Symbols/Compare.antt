-- ===== src/Symbols/Compare.antt =====
-- The order of symbols, and the symbols that the library defines.
use Prim.Native.Nat.{Ordering}
use fcgiserver.Prelude.{
  ℕ, suc, ◌^◌, ◌<◌, ◌≤◌, ◌+◌, length-append, ◌≡◌, ◌↔◌, sym, refl, List, [], ◌∷◌, some, Bytes,
  length, get_elem?, ◌==◌, arith, Bool-cases, ==_iff, ◌∙◌, inl, inr,
}
use fcgiserver.Symbols.{
  Symbol, SymbolServer, lookup, internalize, internalize_all, resolve, compare_text, compare_symbol,
  startup, names, empty_server,
}
use fcgiserver.Symbols.Table.{IsConsistent, empty_server-IsConsistent}
use fcgiserver.Symbols.Interning.{internalize-Learns, resolve-lookup, IsInterned, lookup-IsInterned}

abbrev pub flip : Ordering → Ordering
flip Ordering.lt = Ordering.gt
flip Ordering.eq = Ordering.eq
flip Ordering.gt = Ordering.lt

pub compare_text_eq : (s t : Bytes) → compare_text s t ≡ Ordering.eq → s ≡ t
unfolding compare_text
compare_text_eq [] [] h = refl
compare_text_eq [] (b ∷ t) h = cc
compare_text_eq (a ∷ s) [] h = cc
compare_text_eq (a ∷ s) (b ∷ t) h = ground (arith, compare_text_eq s t)

pub compare_text-flip : (s t : Bytes) → compare_text t s ≡ flip (compare_text s t)
unfolding compare_text
compare_text-flip [] [] = refl
compare_text-flip [] (b ∷ t) = refl
compare_text-flip (a ∷ s) [] = refl
compare_text-flip (a ∷ s) (b ∷ t) = ground (arith, compare_text-flip s t)

-- `Symbol::compare` is 0 exactly for equal symbols, and changes its sign with the order of its
-- arguments, on the symbols of a consistent table.
pub compare_symbol_order :
    (a b : Symbol) (x y : Bytes) (s : SymbolServer)
    → IsConsistent s
    → lookup x s.index ≡ some a
    → lookup y s.index ≡ some b
    → ((compare_symbol a b s ≡ Ordering.eq) ↔ (a ≡ b))
      × (compare_symbol b a s ≡ flip (compare_symbol a b s))
compare_symbol_order a b x y s v ha hb = ((zero_to, zero_from), flips)
  where
    text_a : resolve a s ≡ x
    text_a = resolve-lookup x s a v ha

    text_b : resolve b s ≡ y
    text_b = resolve-lookup y s b v hb

    same_symbol : x ≡ y → a ≡ b
    same_symbol e = ground (arith, rw e at ha)

    zero_to : compare_symbol a b s ≡ Ordering.eq → a ≡ b
    zero_to h = elim (Bool-cases (a == b)) [
      | inl same ↦ (==_iff a b).0 same
      | inr other ↦
          let equal_texts : compare_text (resolve a s) (resolve b s) ≡ Ordering.eq =
            unfold compare_symbol in ground arith in
          same_symbol (sym text_a ∙ compare_text_eq _ _ equal_texts ∙ text_b)
    ]

    zero_from : a ≡ b → compare_symbol a b s ≡ Ordering.eq
    zero_from e = unfold compare_symbol in ground arith

    flips : compare_symbol b a s ≡ flip (compare_symbol a b s)
    flips = unfold compare_symbol in ground (arith, compare_text-flip (resolve a s) (resolve b s))

pub length-internalize-le :
    (str : Bytes) (s : SymbolServer) → length (internalize str s).1.strings ≤ length s.strings + 1
unfolding internalize
length-internalize-le [] s = omega arith
length-internalize-le (c ∷ str) s = ground (arith, length-append s.strings ((c ∷ str) ∷ []))

internalize_all-IsConsistent :
    (strs : List Bytes) (s : SymbolServer)
    → IsConsistent s
    → length s.strings + length strs < 2 ^ 32
    → IsConsistent (internalize_all strs s)
unfolding internalize_all
internalize_all-IsConsistent [] s v room = v
internalize_all-IsConsistent (str ∷ strs) s v room =
    internalize_all-IsConsistent strs (internalize str s).1
      (internalize-Learns str s v (omega arith)).consistent
      (omega (arith, length-internalize-le str s))

pub startup-IsConsistent : IsConsistent startup
startup-IsConsistent =
    unfold startup in
    internalize_all-IsConsistent names empty_server empty_server-IsConsistent (omega arith)

startup_strings : startup.strings ≡ [] ∷ names
unfolding startup
startup_strings = refl

pub startup-lookup :
    (i : ℕ) (str : Bytes) → get_elem? names i ≡ some str → lookup str startup.index ≡ some (suc i)
startup-lookup i str h = (startup-IsConsistent.agrees str (suc i)).1 (rw startup_strings h)

-- After the start each symbol of the library is the one of its text: the definitions of symbols.cpp
-- number the texts from 1 on.
pub startup-IsInterned :
    (i : ℕ) (str : Bytes) → get_elem? names i ≡ some str → IsInterned str (suc i) startup
startup-IsInterned i str h =
    lookup-IsInterned str startup (suc i) startup-IsConsistent (startup-lookup i str h)
