-- ===== src/Symbols.antt =====
-- src/lib/symbol_server.cpp, symbol.cpp and symbols.cpp: the table that gives every text a number,
-- the class `Symbol`, which is such a number, and the symbols that the library defines.
-- `m_strings` is a list, `m_index` an association list.
pub mod Table
pub mod Interning
pub mod Threads
pub mod Compare
pub mod Operators
use Prim.Native.Nat.{compare, Ordering}
use fcgiserver.Prelude.{
  ℕ, ◌+◌, ◌%◌, ◌^◌, Bool, true, false, List, [], ◌∷◌, ◌++◌, Option, none, some, Bytes, codes, equal,
  length, get_elem?, ltb, ◌==◌, if◌then◌else◌,
}

abbrev pub Symbol : Type 0
Symbol = ℕ

abbrev pub Index : Type 0
Index = List (Bytes × Symbol)

pub record SymbolServer : Type 0 where
  pub strings : List Bytes
  pub index : Index

-- `m_index.find(str)`
unfoldable pub lookup : Bytes → Index → Option Symbol
unfolding equal
lookup str [] = none
lookup str ((key, id) ∷ m) = if equal key str then some id else lookup str m

-- `m_index[str] = id`
unfoldable pub assign : Bytes → Symbol → Index → Index
unfolding equal
assign str id [] = (str, id) ∷ []
assign str id ((key, old) ∷ m) =
    if equal key str then (key, id) ∷ m else (key, old) ∷ assign str id m

abbrev pub no_strings : SymbolServer
no_strings = record { strings = []; index = [] }

-- `insert_defaults`: the empty text, as the symbol 0.
unfoldable pub insert_defaults : SymbolServer → SymbolServer
unfolding assign
insert_defaults s = record { strings = s.strings ++ [] ∷ []; index = assign [] 0 s.index }

-- `clear`, also the destructor
unfoldable pub clear : SymbolServer → SymbolServer
clear s = insert_defaults no_strings

-- `insert_defaults` on an empty table: the server as it is constructed.
abbrev pub empty_server : SymbolServer
empty_server = record { strings = [] ∷ []; index = ([], 0) ∷ [] }

-- The pair {false, 0} where nothing is found.
abbrev check_result : Option Symbol → Bool × Symbol
check_result none = (false, 0)
check_result (some id) = (true, id)

unfoldable pub check_internalization : Bytes → SymbolServer → Bool × Symbol
check_internalization [] s = (true, 0)
check_internalization (c ∷ str) s = check_result (lookup (c ∷ str) s.index)

-- `m_strings.emplace_back(...)` and `m_index[new_view] = new_index`; the index is an unsigned int.
abbrev pub add_string : Bytes → SymbolServer → SymbolServer
add_string str s = record {
  strings = s.strings ++ str ∷ [];
  index = assign str (length s.strings % 2 ^ 32) s.index;
}

-- The part of `internalize` under the exclusive lock, which looks a second time.
unfoldable pub internalize_locked : Bytes → SymbolServer → Symbol × SymbolServer
internalize_locked str s = elim (lookup str s.index) [
  | some id ↦ (id, s)
  | none ↦ (length s.strings % 2 ^ 32, add_string str s)
]

unfoldable pub internalize : Bytes → SymbolServer → Symbol × SymbolServer
unfolding internalize_locked
internalize [] s = (0, s)
internalize (c ∷ str) s = elim (lookup (c ∷ str) s.index) [
  | some id ↦ (id, s)
  | none ↦ internalize_locked (c ∷ str) s
]

abbrev pub invalid_symbol : Bytes
invalid_symbol = codes "!!! invalid symbol !!!"

abbrev or_invalid : Option Bytes → Bytes
or_invalid none = invalid_symbol
or_invalid (some str) = str

-- `resolve`, in a build without assertions.
unfoldable pub resolve : Symbol → SymbolServer → Bytes
resolve id s = or_invalid (get_elem? s.strings id)

-- `Symbol::Symbol(str)`
abbrev pub symbol : Bytes → SymbolServer → Symbol × SymbolServer
symbol = internalize

-- `Symbol::maybe(str)`: the symbol 0 for a text that has none.
abbrev pub maybe : Bytes → SymbolServer → Symbol
maybe str s = (check_internalization str s).1

-- `std::string_view::compare`, by its sign
unfoldable pub compare_text : Bytes → Bytes → Ordering
compare_text [] [] = Ordering.eq
compare_text [] (_ ∷ _) = Ordering.lt
compare_text (_ ∷ _) [] = Ordering.gt
compare_text (a ∷ s) (b ∷ t) = elim (compare a b) [
  | Ordering.lt ↦ Ordering.lt
  | Ordering.eq ↦ compare_text s t
  | Ordering.gt ↦ Ordering.gt
]

-- `Symbol::compare`
unfoldable pub compare_symbol : Symbol → Symbol → SymbolServer → Ordering
compare_symbol a b s = if a == b then Ordering.eq else compare_text (resolve a s) (resolve b s)

-- `operator==`
abbrev pub same_symbol : Symbol → Symbol → Bool
same_symbol a b = a == b

-- The texts of the symbols of symbols.cpp, in the order of their definitions.
abbrev pub names : List Bytes
names =
    codes "Status"
    ∷ codes "Content-Length"
    ∷ codes "Content-Type"
    ∷ codes "CONTENT_TYPE"
    ∷ codes "CONTENT_LENGTH"
    ∷ codes "REQUEST_METHOD"
    ∷ codes "REQUEST_SCHEME"
    ∷ codes "QUERY_STRING"
    ∷ codes "SCRIPT_NAME"
    ∷ codes "DOCUMENT_URI"
    ∷ codes "PATH_INFO"
    ∷ codes "REMOTE_ADDR"
    ∷ codes "REMOTE_PORT"
    ∷ codes "HTTP_USER_AGENT"
    ∷ codes "HTTP_DNT"
    ∷ codes "GET"
    ∷ codes "PUT"
    ∷ codes "POST"
    ∷ codes "HEAD"
    ∷ codes "PATCH"
    ∷ codes "TRACE"
    ∷ codes "DELETE"
    ∷ codes "CONNECT"
    ∷ codes "OPTIONS"
    ∷ codes "api"
    ∷ codes "*"
    ∷ []

unfoldable pub internalize_all : List Bytes → SymbolServer → SymbolServer
internalize_all [] s = s
internalize_all (str ∷ strs) s = internalize_all strs (internalize str s).1

-- The server after the static initialisation of symbols.cpp.
unfoldable pub startup : SymbolServer
unfolding internalize_all internalize lookup assign
startup = internalize_all names empty_server
