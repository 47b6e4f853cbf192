-- ===== src/Api/Application/Guards/Open.antt =====
-- Requests without a valid token, and those for public paths.
use iot_dashboard_flutter.Common.{
  true, false, not, ◌||◌, ◌++◌, str_instance, is_empty, List, [], ◌∷◌, map, Str, str, ◌≡◌, refl, ap,
  ◌∙◌,
}
use iot_dashboard_flutter.Common.Search.{starts_with, starts_with-append}
use iot_dashboard_flutter.Errors.{Error, err}
use iot_dashboard_flutter.Exn.{returns}
use iot_dashboard_flutter.Json.{Json}
use iot_dashboard_flutter.Security.Crypto.{Crypto}
use iot_dashboard_flutter.Security.Access.{Permission}
use iot_dashboard_flutter.Security.Auth.{validate_token}
use iot_dashboard_flutter.Http.{HttpRequest, HttpResponse, get_header, error_response}
use iot_dashboard_flutter.Http.Router.{run_chain, dispatch}
use iot_dashboard_flutter.Http.Router.Laws.{first_route, knows_path, answer, dispatch-answer}
use iot_dashboard_flutter.Api.Middleware.{
  is_public_path, refuse, pass, AuthState, with_claims, auth_middleware,
}
use iot_dashboard_flutter.Api.Middleware.Laws.{bearer-is_empty, bearer-drop}
use iot_dashboard_flutter.Api.Application.{Handlers, register_http_routes}
use iot_dashboard_flutter.Api.Application.Guards.{grants, guard_of, router, router-middlewares}

-- The answer to a request without a valid token.
unauthorized : Str → HttpResponse → HttpResponse
unauthorized message res = error_response res 401 (str "Unauthorized") message

module _ (crypto : Crypto) (json : Json) {S : Type 0} (state : AuthState S) where
  -- What is wrong with the token of a request: there is none, or it is not valid.
  pub data Lacks (s : S) (req : HttpRequest) : Type 0 where
    no_bearer :
        (is_empty (get_header req (str "authorization"))
            || not (starts_with (str "Bearer ") (get_header req (str "authorization"))))
          ≡ true
        → Lacks s req
    invalid :
        (token : Str) (e : Error)
        → get_header req (str "authorization") ≡ str "Bearer " ++ token
        → validate_token crypto json (state.service s) (state.clock s) token ≡ returns (err e)
        → Lacks s req

  -- The message of the answer.
  unfoldable pub complaint : (s : S) (req : HttpRequest) → Lacks s req → Str
  complaint s req (no_bearer h) = str "Missing Bearer token"
  complaint s req (invalid token e bearer h) = str "Invalid or expired token"

  auth_middleware-Lacks :
      (resource : Str) (permission : Permission) (s : S) (req : HttpRequest) (res : HttpResponse)
      (l : Lacks s req)
      → is_public_path req.path ≡ false
      → auth_middleware crypto json state resource permission s req res
        ≡ refuse req (unauthorized (complaint s req l) res)
  unfolding auth_middleware with_claims complaint unauthorized
  auth_middleware-Lacks resource permission s req res (no_bearer h) protected =
      rw (protected, h, auth_middleware, with_claims)
  auth_middleware-Lacks resource permission s req res (invalid token e bearer h) protected = rw (
    protected,
    bearer,
    bearer-is_empty token,
    bearer-drop token,
    starts_with-append (str "Bearer ") token,
    h,
    auth_middleware,
    with_claims,
  )

  auth_middleware-public :
      (resource : Str) (permission : Permission) (s : S) (req : HttpRequest) (res : HttpResponse)
      → is_public_path req.path ≡ true
      → auth_middleware crypto json state resource permission s req res ≡ pass req res
  unfolding auth_middleware
  auth_middleware-public resource permission s req res public = rw (public, auth_middleware)

  run_chain-public :
      (gs : List (Str × Permission)) (s : S) (req : HttpRequest) (res : HttpResponse)
      → is_public_path req.path ≡ true
      → run_chain (map (guard_of crypto json state) gs) s req res ≡ pass req res
  unfolding run_chain guard_of
  run_chain-public [] s req res public = refl
  run_chain-public ((resource, permission) ∷ gs) s req res public =
      rw (auth_middleware-public resource permission s req res public, run_chain)
        (run_chain-public gs s req res public)

  run_chain-Lacks :
      (s : S) (req : HttpRequest) (res : HttpResponse) (l : Lacks s req)
      → is_public_path req.path ≡ false
      → run_chain (map (guard_of crypto json state) grants) s req res
        ≡ refuse req (unauthorized (complaint s req l) res)
  unfolding run_chain guard_of grants
  run_chain-Lacks s req res l protected =
      rw (auth_middleware-Lacks _ _ s req res l protected, run_chain)

  module _ (handlers : Handlers S) where
    -- A request for a path that is not public, with no bearer token or with one that validation
    -- refuses, is answered with 401 and changes nothing, whatever its method and path are.
    pub dispatch-unauthorized :
        (s : S) (req : HttpRequest) (res : HttpResponse) (l : Lacks s req)
        → is_public_path req.path ≡ false
        → dispatch (register_http_routes crypto json state handlers) s req res
          ≡ (s, returns (error_response res 401 (str "Unauthorized") (complaint s req l)))
    unfolding router unauthorized
    dispatch-unauthorized s req res l protected =
        dispatch-answer (router crypto json state handlers) s req res _ (
          ap (λ ms. run_chain ms s req res) (router-middlewares crypto json state handlers)
          ∙ run_chain-Lacks s req res l protected)

    -- A request for a public path is answered by the first route for its path and method, as it
    -- came, with a token or without.
    pub dispatch-public :
        (s : S) (req : HttpRequest) (res : HttpResponse)
        → is_public_path req.path ≡ true
        → let routes = (register_http_routes crypto json state handlers).routes in
          dispatch (register_http_routes crypto json state handlers) s req res
          ≡ answer (first_route req routes) (knows_path req routes) s req res
    unfolding router
    dispatch-public s req res public =
        dispatch-answer (router crypto json state handlers) s req res _ (
          ap (λ ms. run_chain ms s req res) (router-middlewares crypto json state handlers)
          ∙ run_chain-public grants s req res public)
