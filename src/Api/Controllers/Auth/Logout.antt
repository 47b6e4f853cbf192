-- ===== src/Api/Controllers/Auth/Logout.antt =====
-- What a user who logs out can still do, and how a login fares.
use iot_dashboard_flutter.Common.{ℕ, false, ◌++◌, Str, str, ◌≡◌, ◌∙◌, str_instance, eq_self}
use iot_dashboard_flutter.Common.Search.{starts_with-append}
use iot_dashboard_flutter.Common.Sets.{has-add}
use iot_dashboard_flutter.Errors.{err, token_expired}
use iot_dashboard_flutter.Exn.{returns}
use iot_dashboard_flutter.Json.{Json}
use iot_dashboard_flutter.Security.Crypto.{Crypto}
use iot_dashboard_flutter.Security.Access.{Permission}
use iot_dashboard_flutter.Security.Auth.{AuthenticationService, logout, validate_token}
use iot_dashboard_flutter.Http.{HttpRequest, HttpResponse, get_header, error_response}
use iot_dashboard_flutter.Api.Middleware.{
  AuthState, auth_middleware, with_claims, is_public_path, refuse,
}
use iot_dashboard_flutter.Api.Middleware.Laws.{bearer-is_empty, bearer-drop}
use iot_dashboard_flutter.Api.Controllers.Auth.{logout_handler}

module _ (crypto : Crypto) (json : Json) where
  pub logout_handler-bearer :
      (s : AuthenticationService) (req : HttpRequest) (res : HttpResponse) (token : Str)
      → get_header req (str "authorization") ≡ str "Bearer " ++ token
      → (logout_handler crypto json s req res).0 ≡ (logout crypto json s token).0
  unfolding logout_handler
  logout_handler-bearer s req res token bearer =
      rw (bearer, bearer-drop token, starts_with-append (str "Bearer ") token, logout_handler)

  validate_token-logout :
      (s : AuthenticationService) (now : ℕ) (token : Str)
      → validate_token crypto json (logout crypto json s token).0 now token
        ≡ returns (err token_expired)
  unfolding validate_token logout
  validate_token-logout s now token = rw (has-add token token s.revoked_tokens, eq_self token)

module _ (crypto : Crypto) (json : Json) {S : Type 0} (state : AuthState S) where
  -- After the logout handler has served a request with a bearer token, the middleware of every route
  -- that is not public refuses that token with 401, at any time.
  pub auth_middleware-logout_handler :
      (s : AuthenticationService) (t : S) (req req' : HttpRequest) (res res' : HttpResponse)
      (token resource : Str) (permission : Permission)
      → get_header req (str "authorization") ≡ str "Bearer " ++ token
      → get_header req' (str "authorization") ≡ str "Bearer " ++ token
      → is_public_path req'.path ≡ false
      → state.service t ≡ (logout_handler crypto json s req res).0
      → auth_middleware crypto json state resource permission t req' res'
        ≡ refuse req'
            (error_response res' 401 (str "Unauthorized") (str "Invalid or expired token"))
  unfolding auth_middleware with_claims
  auth_middleware-logout_handler s t req req' res res' token resource permission bearer bearer'
        protected after =
      rw (
        protected,
        bearer',
        bearer-is_empty token,
        bearer-drop token,
        starts_with-append (str "Bearer ") token,
        after ∙ logout_handler-bearer crypto json s req res token bearer,
        validate_token-logout crypto json s (state.clock t) token,
        auth_middleware,
        with_claims,
      )
