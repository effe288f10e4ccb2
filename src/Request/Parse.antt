-- ===== src/Request/Parse.antt =====
-- src/lib/request.cpp: the loops of `full_route` and `query`, the search of `query(key)`, the number
-- of `remote_port`, and the choice of an encoding by `set_content_type`. A loop `while
-- (!s.empty())` over a view takes fuel; each round cuts off at least one byte, so the length of the
-- view is enough.
pub mod Route
pub mod Params
use fcgiserver.Prelude.{
  ℕ, zero, suc, ◌^◌, Bool, true, false, List, [], ◌∷◌, Option, none, some, Bytes, codes, equal,
  take, length, if◌then◌else◌,
}
use fcgiserver.Strings.{find, before, after, is_empty}
use fcgiserver.Prelude.Int.{ℤ, pos, negsuc}
use fcgiserver.Digits.{from_chars}

-- `if (!element.empty()) route.emplace_back(element)`
abbrev pub push_element : Bytes → List Bytes → List Bytes
push_element [] later = later
push_element (c ∷ element) later = (c ∷ element) ∷ later

unfoldable pub route_loop : ℕ → Bytes → List Bytes
route_loop zero uri = []
route_loop (suc fuel) [] = []
route_loop (suc fuel) (c ∷ uri) =
    let split = find b'/' (c ∷ uri) in
    push_element (before split (c ∷ uri)) (route_loop fuel (after split (c ∷ uri)))

-- What `full_route` makes of the document URI.
unfoldable pub parse_route : Bytes → List Bytes
unfolding route_loop find
parse_route uri = route_loop (length uri) uri

-- A key and its value.
abbrev pub Param : Type 0
Param = Bytes × Bytes

abbrev pub split_param : Bytes → Param
split_param element = let split = find b'=' element in (before split element, after split element)

unfoldable pub query_loop : ℕ → Bytes → List Param
query_loop zero query_str = []
query_loop (suc fuel) [] = []
query_loop (suc fuel) (c ∷ query_str) =
    let split = find b'&' (c ∷ query_str) in
    split_param (before split (c ∷ query_str)) ∷ query_loop fuel (after split (c ∷ query_str))

-- What `query()` makes of the query string.
unfoldable pub parse_query : Bytes → List Param
unfolding query_loop find
parse_query query_str = query_loop (length query_str) query_str

-- The loop of `query(key)`: the pair {true, value} of the first parameter with the key.
unfoldable pub find_param : Bytes → List Param → Option Bytes
find_param key [] = none
find_param key ((name, value) ∷ params) =
    if equal name key then some value else find_param key params

-- `remote_port`, from the environment's string: an unsigned short, or -1.
unfoldable pub parse_port : Bytes → ℤ
parse_port value = elim (from_chars (2 ^ 16) value) [ some port ↦ pos port | none ↦ negsuc 0 ]

pub data ContentEncoding : Type 0 where
  verbatim utf8 html : ContentEncoding

-- The crude autodetection of `set_content_type`.
unfoldable pub detect_encoding : Bytes → ContentEncoding
unfolding equal
detect_encoding ct =
    if equal ct (codes "text/html")
    then html
    else if equal (take 5 ct) (codes "text/")
    then utf8
    else verbatim
