-- ===== src/Router/Dispatch.antt =====
-- What `handle_request` leaves behind when it does not handle a request (src/lib/router.cpp).
use fcgiserver.Prelude.{
  ◌≡◌, ◌≢◌, ◌∙◌, ap, refl, List, [], ◌∷◌, Option, none, some, Bytes, arith, Bool-cases,
  Option-cases, inl, inr, ◌⊎◌,
}
use fcgiserver.Symbols.{SymbolServer}
use fcgiserver.Router.Context.{RouteResult, handled, not_found, invalid_method, is_result, Context}
use fcgiserver.Router.{IRouter, SubRoute, router}
use fcgiserver.Router.Operations.{
  Walk, Visit, returned, goes_on, visit, walk, conclude, conclude_recursive, route_from,
  handle_request, next_subroute, mark_recursive, join_result,
}

pub Visit-cases :
    {C : Type 0} (v : Visit C)
    → ((c : C) × (v ≡ returned c)) ⊎ ((result : RouteResult) × (c : C) × (v ≡ goes_on result c))
Visit-cases (returned c) = inl (c, refl)
Visit-cases (goes_on result c) = inr (result, c, refl)

module _ {C : Type 0} (x : Context C) where
  -- The route that a router took away is put back, if it did not handle the request.
  visit-relative_route :
      (r : Option (IRouter C)) (rest : List Bytes) (route_result result : RouteResult) (c c' : C)
      → visit x r rest route_result c ≡ goes_on result c'
      → x.relative_route c' ≡ x.relative_route c
  unfolding visit
  visit-relative_route none rest route_result result c c' h = ground arith
  visit-relative_route (some r) rest route_result result c c' h =
      let (old, c₁) = x.swap_relative_route rest c in
      let (new_result, c₂) = r c₁ in
      elim (Bool-cases (is_result (join_result new_result route_result) handled)) [
        | inl done ↦ absurd (cc (rw done at h))
        | inr more ↦
            let back : (x.swap_relative_route old c₂).1 ≡ c' = cc (rw more at h) in
            rw (← back) (x.swap_sets old c₂ ∙ x.swap_returns rest c)
      ]

  conclude_recursive-context :
      (last : Option (SubRoute C)) (route_result : RouteResult) (c : C)
      → (conclude_recursive x last route_result c).0 ≢ handled
      → (conclude_recursive x last route_result c).1 ≡ c
  unfolding conclude_recursive
  conclude_recursive-context none route_result c h = refl
  conclude_recursive-context (some last) route_result c h = ground arith

  conclude-cases :
      (n last : Option (SubRoute C)) (route_result : RouteResult) (c : C)
      → (conclude x (walk n last route_result c)).0 ≢ handled
      → (conclude x (walk n last route_result c)).1 ≡ c
  unfolding conclude
  conclude-cases none last route_result c h = conclude_recursive-context last route_result c h
  conclude-cases (some n) last route_result c h = ground (
    arith,
    conclude_recursive-context last invalid_method c,
    conclude_recursive-context last not_found c,
  )

  conclude-context : (w : Walk C) → (conclude x w).0 ≢ handled → (conclude x w).1 ≡ w.context
  conclude-context w h =
      conclude-cases w.subroute w.last_with_catch_recursive w.route_result w.context h

  route_from-relative_route :
      (s : SymbolServer) (rest : List Bytes) (n : SubRoute C) (last : Option (SubRoute C))
      (route_result : RouteResult) (c : C)
      → (route_from x s rest n last route_result c).0 ≢ handled
      → x.relative_route (route_from x s rest n last route_result c).1 ≡ x.relative_route c
  unfolding route_from
  route_from-relative_route s [] n last route_result c h =
      elim (Visit-cases (visit x (router n) [] route_result c)) [
        | inl (c', e) ↦ absurd (rw (e, route_from) at h refl)
        | inr (result, c', e) ↦
            rw (e, route_from)
              (ap x.relative_route
                  (conclude-context (walk (some n) last result c') (rw (e, route_from) at h))
                ∙ visit-relative_route (router n) [] route_result result c c' e)
      ]
  route_from-relative_route s (p ∷ rest) n last route_result c h =
      elim (Visit-cases (visit x (router n) (p ∷ rest) route_result c)) [
        | inl (c', e) ↦ absurd (rw (e, route_from) at h refl)
        | inr (result, c', e) ↦
            let back = visit-relative_route (router n) (p ∷ rest) route_result result c c' e in
            elim (Option-cases (next_subroute p s n)) [
              | inl missing ↦
                  let h' = rw (missing, route_from) at (rw (e, route_from) at h) in
                  rw (e, route_from)
                    (rw (missing, route_from)
                      (ap x.relative_route (conclude-context (walk none last result c') h') ∙ back))
              | inr (next, found) ↦
                  let h' = rw (found, route_from) at (rw (e, route_from) at h) in
                  rw (e, route_from)
                    (rw (found, route_from)
                      (route_from-relative_route s rest next (mark_recursive next last) result c' h'
                        ∙ back))
            ]
      ]

  -- If a request is not handled, its relative route is what it was, whatever routers it went through.
  pub handle_request-relative_route :
      (s : SymbolServer) (root : SubRoute C) (c : C)
      → (handle_request x s root c).0 ≢ handled
      → x.relative_route (handle_request x s root c).1 ≡ x.relative_route c
  unfolding handle_request
  handle_request-relative_route s root c h =
      route_from-relative_route s (x.relative_route c) root (mark_recursive root none) not_found c h
