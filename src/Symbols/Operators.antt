-- ===== src/Symbols/Operators.antt =====
-- src/lib/symbol.h and symbol.cpp: what else the class `Symbol` does with its number, and the order of
-- its operators, which `std::map<Symbol, ...>` relies on.
use Prim.Native.Nat.{Ordering}
use fcgiserver.Prelude.{
  ◌≡◌, ◌∙◌, sym, ap, refl, inl, inr, Bool, true, false, not, [], ◌∷◌, ◌++◌, some, Bytes, codes,
  ◌==◌, arith, Bool-cases, ==_iff,
}
use fcgiserver.Strings.{find, before}
use fcgiserver.Digits.{print}
use fcgiserver.Symbols.{
  Symbol, SymbolServer, lookup, symbol, resolve, compare_text, compare_symbol, same_symbol,
}
use fcgiserver.Symbols.Table.{IsConsistent}
use fcgiserver.Symbols.Interning.{resolve-lookup}
use fcgiserver.Symbols.Compare.{compare_symbol_order, flip}

-- `Symbol::Symbol()`
abbrev pub no_symbol : Symbol
no_symbol = 0

-- `Symbol(Symbol && other)`, and the assignment from another object: the new number, and what is left
-- in the object that was moved from.
abbrev pub move : Symbol → Symbol × Symbol
move other = (other, no_symbol)

-- `operator= (std::string_view const&)`
abbrev pub assign_text : Bytes → SymbolServer → Symbol × SymbolServer
assign_text str s = symbol str s

-- `operator bool`
abbrev pub is_set : Symbol → Bool
is_set id = not (id == 0)

-- `operator!=`
abbrev pub differs : Symbol → Symbol → Bool
differs a b = not (same_symbol a b)

abbrev is_lt : Ordering → Bool
is_lt Ordering.lt = true
is_lt Ordering.eq = false
is_lt Ordering.gt = false

-- `operator<`, `operator<=`, `operator>` and `operator>=`
abbrev pub less : Symbol → Symbol → SymbolServer → Bool
less a b s = is_lt (compare_symbol a b s)

abbrev pub greater : Symbol → Symbol → SymbolServer → Bool
greater a b s = is_lt (flip (compare_symbol a b s))

abbrev pub less_equal : Symbol → Symbol → SymbolServer → Bool
less_equal a b s = not (greater a b s)

abbrev pub greater_equal : Symbol → Symbol → SymbolServer → Bool
greater_equal a b s = not (less a b s)

-- `to_cstring`, as the text that it points to: up to the first NUL.
abbrev pub to_cstring : Symbol → SymbolServer → Bytes
to_cstring id s = let view = resolve id s in before (find 0 view) view

-- `operator<<` on a `std::ostream`
abbrev pub print_symbol : Symbol → SymbolServer → Bytes
print_symbol id s = codes "[" ++ (print 10 id ++ (codes ":" ++ (resolve id s ++ codes "]")))

compare_text_refl : (x : Bytes) → compare_text x x ≡ Ordering.eq
unfolding compare_text
compare_text_refl [] = refl
compare_text_refl (a ∷ x) = ground (arith, compare_text_refl x)

compare_text_trans :
    (x y z : Bytes)
    → compare_text x y ≡ Ordering.lt
    → compare_text y z ≡ Ordering.lt
    → compare_text x z ≡ Ordering.lt
unfolding compare_text
compare_text_trans [] [] z h k = cc
compare_text_trans [] (b ∷ y) [] h k = cc
compare_text_trans [] (b ∷ y) (c ∷ z) h k = refl
compare_text_trans (a ∷ x) [] z h k = cc
compare_text_trans (a ∷ x) (b ∷ y) [] h k = cc
compare_text_trans (a ∷ x) (b ∷ y) (c ∷ z) h k = ground (arith, compare_text_trans x y z)

module _ (s : SymbolServer) (v : IsConsistent s) where
  compare_symbol-text :
      (a b : Symbol) (x y : Bytes)
      → lookup x s.index ≡ some a
      → lookup y s.index ≡ some b
      → compare_symbol a b s ≡ compare_text x y
  unfolding compare_symbol
  compare_symbol-text a b x y ha hb =
      let text_a = resolve-lookup x s a v ha in
      let text_b = resolve-lookup y s b v hb in
      elim (Bool-cases (a == b)) [
        | inl same ↦
            let e : a ≡ b = (==_iff a b).0 same in
            let texts : x ≡ y = sym text_a ∙ ap (λ k. resolve k s) e ∙ text_b in
            rw same (sym (rw texts (compare_text_refl y)))
        | inr other ↦ rw (other, text_a, text_b)
      ]

  is_lt-true : (o : Ordering) → is_lt o ≡ true → o ≡ Ordering.lt
  is_lt-true Ordering.lt h = refl
  is_lt-true Ordering.eq h = ground arith
  is_lt-true Ordering.gt h = ground arith

  -- `operator<` is transitive on the symbols of a consistent table, and three symbols in this order are
  -- ordered by the other operators, and not in the other direction.
  pub less_trans :
      (a b c : Symbol) (x y z : Bytes)
      → lookup x s.index ≡ some a
      → lookup y s.index ≡ some b
      → lookup z s.index ≡ some c
      → less a b s ≡ true
      → less b c s ≡ true
      → (less a c s ≡ true)
        × (greater c a s ≡ true)
        × (less_equal a c s ≡ true)
        × (less c a s ≡ false)
        × (differs a c ≡ true)
  less_trans a b c x y z ha hb hc ab bc =
      let first = is_lt-true (compare_symbol a b s) ab in
      let second = is_lt-true (compare_symbol b c s) bc in
      let texts : compare_text x z ≡ Ordering.lt =
        compare_text_trans x y z (sym (compare_symbol-text a b x y ha hb) ∙ first)
          (sym (compare_symbol-text b c y z hb hc) ∙ second) in
      let forward : compare_symbol a c s ≡ Ordering.lt =
        compare_symbol-text a c x z ha hc ∙ texts in
      let ((_, zero_from), flips) = compare_symbol_order a c x z s v ha hc in
      let backward : compare_symbol c a s ≡ Ordering.gt = flips ∙ rw forward in
      (
        rw forward,
        rw backward,
        rw forward,
        rw backward,
        elim (Bool-cases (a == c)) [
          | inl same ↦ let e = zero_from ((==_iff a c).0 same) in absurd (cc (sym forward ∙ e))
          | inr other ↦ rw other
        ],
      )
