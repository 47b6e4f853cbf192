-- ===== src/Http/Router/Laws.antt =====
-- What the router answers: the first route for the path and method, else 405, else 404.
use iot_dashboard_flutter.Common.{
  Bool, true, false, ◌&&◌, ◌||◌, ◌==◌, str_instance, if◌then◌else◌, List, [], ◌∷◌, Option, none,
  some, str, ◌≡◌, refl, inl, inr, Bool-cases,
}
use iot_dashboard_flutter.Exn.{Exn, returns}
use iot_dashboard_flutter.Http.{HttpRequest, HttpResponse, error_response}
use iot_dashboard_flutter.Http.Router.{
  same_method, Passage, Route, HttpRouter, run_chain, run_routes, dispatch,
}

or_true : (b : Bool) → (b || true) ≡ true
or_true true = refl
or_true false = refl

module _ {S : Type 0} where
  -- The first route registered for the request's path and method.
  unfoldable pub first_route : HttpRequest → List (Route S) → Option (Route S)
  first_route req [] = none
  first_route req (route ∷ rest) =
      if route.path == req.path && same_method route.method req.method
      then some route
      else first_route req rest

  unfoldable pub knows_path : HttpRequest → List (Route S) → Bool
  knows_path req [] = false
  knows_path req (route ∷ rest) = route.path == req.path || knows_path req rest

  -- The answer that the router documents.
  unfoldable pub answer :
      Option (Route S) → Bool → S → HttpRequest → HttpResponse → S × Exn HttpResponse
  answer (some route) known s req res = route.handler s req res
  answer none true s req res = (
    s,
    returns (
        error_response res 405 (str "MethodNotAllowed")
          (str "Method not allowed for this endpoint")),
  )
  answer none false s req res =
      (s, returns (error_response res 404 (str "NotFound") (str "Endpoint not found")))

  run_routes-answer :
      (routes : List (Route S)) (seen : Bool) (s : S) (req : HttpRequest) (res : HttpResponse)
      → run_routes routes seen s req res
        ≡ answer (first_route req routes) (seen || knows_path req routes) s req res
  unfolding run_routes first_route knows_path answer
  run_routes-answer [] true s req res = refl
  run_routes-answer [] false s req res = refl
  run_routes-answer (route ∷ rest) seen s req res = elim (Bool-cases (route.path == req.path)) [
    | inl here ↦ elim (Bool-cases (same_method route.method req.method)) [
      | inl same ↦ rw (here, same)
      | inr differs ↦ rw (here, differs, run_routes-answer rest true s req res, or_true seen)
    ]
    | inr elsewhere ↦ rw (elsewhere, run_routes-answer rest seen s req res)
  ]

  -- Dispatching: where the middleware lets the request pass, the first route for the path and method
  -- handles it, and without one the answer is 405 if the path is known and 404 otherwise; where a
  -- middleware stops it, no handler runs and the state stays as it is.
  pub dispatch-answer :
      (router : HttpRouter S) (s : S) (req : HttpRequest) (res : HttpResponse) (p : Passage)
      → run_chain router.middlewares s req res ≡ returns p
      → dispatch router s req res ≡ (
          if p.proceeds
          then answer
              (first_route p.req router.routes)
              (knows_path p.req router.routes)
              s
              p.req
              p.res
          else (s, returns p.res))
  unfolding dispatch
  dispatch-answer router s req res p h =
      rw (h, dispatch) (rw (run_routes-answer router.routes false s p.req p.res))
