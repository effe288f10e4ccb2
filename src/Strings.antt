-- ===== src/Strings.antt =====
-- The operations of `std::string_view` that the program cuts texts with.
pub mod Split
use fcgiserver.Prelude.{
  ℕ, suc, Bool, true, false, [], ◌∷◌, Option, none, some, Bytes, take, drop, ◌==◌, if◌then◌else◌,
}

abbrev pub one_more : Option ℕ → Option ℕ
one_more none = none
one_more (some i) = some (suc i)

-- `s.find(b)`
unfoldable pub find : ℕ → Bytes → Option ℕ
find b [] = none
find b (c ∷ s) = if c == b then some 0 else one_more (find b s)

abbrev pub is_empty : Bytes → Bool
is_empty [] = true
is_empty (_ ∷ _) = false

-- `s.substr(0, split)`, where `split` is what `find` returned: the whole text for `npos`.
abbrev pub before : Option ℕ → Bytes → Bytes
before none s = s
before (some i) s = take i s

-- `(split == npos) ? string_view() : s.substr(split + 1)`
abbrev pub after : Option ℕ → Bytes → Bytes
after none s = []
after (some i) s = drop (suc i) s
