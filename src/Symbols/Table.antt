-- ===== src/Symbols/Table.antt =====
-- The numbers of the table against its texts (src/lib/symbol_server.cpp).
use fcgiserver.Prelude.{
  ℕ, suc, zero, ◌%◌, ◌^◌, ◌<◌, ◌≡◌, ◌↔◌, ◌⊎◌, inl, inr, refl, List, [], ◌∷◌, ◌++◌, none, some,
  Bytes, equal, equal_iff, length, get_elem?, get_elem?-append-here, get_elem?-append-below,
  if◌then◌else◌, arith, Bool-cases,
}
use fcgiserver.Symbols.{
  Symbol, Index, SymbolServer, lookup, assign, empty_server, add_string, insert_defaults, clear,
}

pub lookup-assign :
    (str key : Bytes) (id : Symbol) (m : Index)
    → lookup key (assign str id m) ≡ (if equal str key then some id else lookup key m)
unfolding lookup assign
lookup-assign str key id [] = refl
lookup-assign str key id ((k, old) ∷ m) =
    ground (arith, equal_iff k str, equal_iff k key, equal_iff str key, lookup-assign str key id m)

-- The symbol 0 is the empty text, and a text is found at a symbol exactly if it is stored there.
pub record IsConsistent (s : SymbolServer) : Type 0 where
  pub zero_empty : get_elem? s.strings 0 ≡ some []
  pub agrees :
      (str : Bytes) (id : Symbol)
      → (lookup str s.index ≡ some id) ↔ (get_elem? s.strings id ≡ some str)

get_elem?-append_cases :
    (xs : List Bytes) (y : Bytes) (i : ℕ) {a : Bytes}
    → get_elem? (xs ++ y ∷ []) i ≡ some a
    → (get_elem? xs i ≡ some a) ⊎ ((i ≡ length xs) × (a ≡ y))
get_elem?-append_cases [] y zero h = inr (refl, ground arith)
get_elem?-append_cases [] y (suc i) h = ground arith
get_elem?-append_cases (x ∷ xs) y zero h = inl h
get_elem?-append_cases (x ∷ xs) y (suc i) h = ground (arith, get_elem?-append_cases xs y i h)

empty_agrees :
    (str : Bytes) (id : Symbol)
    → (lookup str empty_server.index ≡ some id) ↔ (get_elem? empty_server.strings id ≡ some str)
unfolding lookup equal
empty_agrees [] zero = (λ _. refl, λ _. refl)
empty_agrees (c ∷ str) zero = (λ h. cc, λ h. cc)
empty_agrees [] (suc id) = (λ h. ground arith, λ h. cc)
empty_agrees (c ∷ str) (suc id) = (λ h. cc, λ h. cc)

pub empty_server-IsConsistent : IsConsistent empty_server
empty_server-IsConsistent = record { zero_empty = refl; agrees = empty_agrees }

-- A new text takes the next number.
module _ (s : SymbolServer) (str : Bytes) (v : IsConsistent s) (new : lookup str s.index ≡ none)
    (room : length s.strings < 2 ^ 32) where
  next_symbol : length s.strings % 2 ^ 32 ≡ length s.strings
  next_symbol = omega arith

  lookup-add_string :
      (key : Bytes)
      → lookup key (add_string str s).index
        ≡ (if equal str key then some (length s.strings) else lookup key s.index)
  lookup-add_string key = rw next_symbol (lookup-assign str key (length s.strings) s.index)

  lookup→get :
      (key : Bytes) (id : Symbol)
      → lookup key (add_string str s).index ≡ some id
      → get_elem? (add_string str s).strings id ≡ some key
  lookup→get key id h = elim (Bool-cases (equal str key)) [
    | inl same ↦
        let at : id ≡ length s.strings = ground (arith, lookup-add_string key) in
        rw (at, ← (equal_iff str key).0 same) (get_elem?-append-here s.strings str [])
    | inr other ↦
        get_elem?-append-below s.strings (str ∷ []) id
          ((v.agrees key id).0 (ground (arith, lookup-add_string key)))
  ]

  get→lookup :
      (key : Bytes) (id : Symbol)
      → get_elem? (add_string str s).strings id ≡ some key
      → lookup key (add_string str s).index ≡ some id
  get→lookup key id h = elim (get_elem?-append_cases s.strings str id h) [
    | inl old ↦
        let found = (v.agrees key id).1 old in
        ground (arith, lookup-add_string key, equal_iff str key)
    | inr (last, same) ↦ ground (arith, lookup-add_string key, equal_iff str key)
  ]

  pub add_string-IsConsistent : IsConsistent (add_string str s)
  add_string-IsConsistent = record {
    zero_empty = get_elem?-append-below s.strings (str ∷ []) 0 v.zero_empty;
    agrees = λ key id. (lookup→get key id, get→lookup key id);
  }

  pub lookup-add_string_self : lookup str (add_string str s).index ≡ some (length s.strings)
  lookup-add_string_self = ground (arith, lookup-add_string str, equal_iff str str)

  pub lookup-add_string_old :
      (key : Bytes) {id : Symbol}
      → lookup key s.index ≡ some id
      → lookup key (add_string str s).index ≡ some id
  lookup-add_string_old key h = ground (arith, lookup-add_string key, equal_iff str key)

-- The server as it is constructed, and after `clear`.
clear_lem : (s : SymbolServer) → clear s ≡ empty_server
unfolding clear insert_defaults assign
clear_lem s = refl

pub clear-IsConsistent : (s : SymbolServer) → IsConsistent (clear s)
clear-IsConsistent s = rw (clear_lem s) empty_server-IsConsistent
