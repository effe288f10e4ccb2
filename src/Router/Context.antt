-- ===== src/Router/Context.antt =====
-- What the router asks of a request: the interface between router.cpp and request.cpp.
use fcgiserver.Prelude.{ℕ, Bool, List, Bytes, ◌≡◌, ◌==◌}

-- `enum class RequestMethod`
pub data RequestMethod : Type 0 where
  get head post put delete connect options trace patch : RequestMethod
  unknown other catch_all_here catch_all_recursive : RequestMethod

unfoldable pub number : RequestMethod → ℕ
number get = 0
number head = 1
number post = 2
number put = 3
number delete = 4
number connect = 5
number options = 6
number trace = 7
number patch = 8
number unknown = 9
number other = 10
number catch_all_here = 11
number catch_all_recursive = 12

abbrev pub same_method : RequestMethod → RequestMethod → Bool
same_method a b = number a == number b

-- `enum class IRouter::RouteResult`
pub data RouteResult : Type 0 where
  handled not_found invalid_method internal_error : RouteResult

abbrev result_number : RouteResult → ℕ
result_number handled = 0
result_number not_found = 1
result_number invalid_method = 2
result_number internal_error = 3

abbrev pub is_result : RouteResult → RouteResult → Bool
is_result a b = result_number a == result_number b

-- `relative_route`, `swap_relative_route` (which returns the route that was there) and
-- `request_method` of the request in a context, with what the router relies on.
pub record Context (C : Type 0) : Type 0 where
  pub relative_route : C → List Bytes
  pub swap_relative_route : List Bytes → C → List Bytes × C
  pub request_method : C → RequestMethod
  pub swap_returns :
      (route : List Bytes) (c : C) → (swap_relative_route route c).0 ≡ relative_route c
  pub swap_sets :
      (route : List Bytes) (c : C) → relative_route (swap_relative_route route c).1 ≡ route
