-- ===== src/Http/Router.antt =====
-- src/network/http/http_router.cpp and .hpp. Middleware and handlers run on the application's state
-- `S`; a middleware may change the request and the response, a handler the state and the response,
-- and both may throw.
pub mod Laws
use iot_dashboard_flutter.Common.{
  ℕ, Bool, true, false, not, ◌==◌, str_instance, nat_beq, if◌then◌else◌, List, [], ◌∷◌, ◌++◌, Str,
  str,
}
use iot_dashboard_flutter.Exn.{Exn, returns, throws}
use iot_dashboard_flutter.Http.{
  HttpMethod, get, post, put, delete, patch, options, head, unknown, HttpRequest, HttpResponse,
  error_response,
}

-- The number of the enumerator, by which methods are compared.
method_number : HttpMethod → ℕ
method_number get = 0
method_number post = 1
method_number put = 2
method_number delete = 3
method_number patch = 4
method_number options = 5
method_number head = 6
method_number unknown = 7

unfoldable pub same_method : HttpMethod → HttpMethod → Bool
unfolding method_number
same_method m n = nat_beq (method_number m) (method_number n)

-- What a middleware returned, with the request and the response as it left them.
pub record Passage : Type 0 where
  pub proceeds : Bool
  pub req : HttpRequest
  pub res : HttpResponse

abbrev pub Middleware : Type 0 → Type 0
Middleware S = S → HttpRequest → HttpResponse → Exn Passage

abbrev pub RouteHandler : Type 0 → Type 0
RouteHandler S = S → HttpRequest → HttpResponse → S × Exn HttpResponse

pub record Route (S : Type 0) : Type 0 where
  pub method : HttpMethod
  pub path : Str
  pub handler : RouteHandler S

pub record HttpRouter (S : Type 0) : Type 0 where
  pub routes : List (Route S)
  pub middlewares : List (Middleware S)

module _ {S : Type 0} where
  unfoldable pub add_route : HttpRouter S → HttpMethod → Str → RouteHandler S → HttpRouter S
  add_route router method path handler = record router {
    routes = router.routes ++ record { method = method; path = path; handler = handler } ∷ [];
  }

  unfoldable pub add_middleware : HttpRouter S → Middleware S → HttpRouter S
  add_middleware router mw = record router { middlewares = router.middlewares ++ mw ∷ [] }

  -- The middleware chain: the first that does not let the request pass ends it.
  unfoldable pub run_chain : List (Middleware S) → S → HttpRequest → HttpResponse → Exn Passage
  run_chain [] s req res = returns (record { proceeds = true; req = req; res = res })
  run_chain (mw ∷ rest) s req res = elim (mw s req res) [
    | throws ↦ throws
    | returns p ↦ if p.proceeds then run_chain rest s p.req p.res else returns p
  ]

  -- The loop over the routes; `path_matched` is the flag of that name.
  unfoldable pub run_routes :
      List (Route S) → Bool → S → HttpRequest → HttpResponse → S × Exn HttpResponse
  run_routes [] path_matched s req res =
      if path_matched
      then (
        s,
        returns (
            error_response res 405 (str "MethodNotAllowed")
              (str "Method not allowed for this endpoint")),
      )
      else (s, returns (error_response res 404 (str "NotFound") (str "Endpoint not found")))
  run_routes (route ∷ rest) path_matched s req res =
      let other_path = run_routes rest path_matched s req res in
      let other_method = run_routes rest true s req res in
      if not (route.path == req.path)
      then other_path
      else if not (same_method route.method req.method)
      then other_method
      else route.handler s req res

  unfoldable pub dispatch : HttpRouter S → S → HttpRequest → HttpResponse → S × Exn HttpResponse
  dispatch router s req res = elim (run_chain router.middlewares s req res) [
    | throws ↦ (s, throws)
    | returns p ↦
        if p.proceeds then run_routes router.routes false s p.req p.res else (s, returns p.res)
  ]
