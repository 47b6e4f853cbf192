-- ===== src/Api/Middleware.antt =====
-- src/api/middleware/auth_middleware.cpp and .hpp. The closures hold a reference to the service, which
-- is read from the application's state when the middleware runs, and so is the clock.
pub mod Laws
use iot_dashboard_flutter.Common.{
  ℕ, Bool, true, false, not, ◌||◌, ◌==◌, str_instance, if◌then◌else◌, List, is_empty, drop, Str,
  str,
}
use iot_dashboard_flutter.Common.Map.{insert}
use iot_dashboard_flutter.Common.Search.{starts_with}
use iot_dashboard_flutter.Errors.{ok, err}
use iot_dashboard_flutter.Exn.{Exn, returns, throws}
use iot_dashboard_flutter.Json.{Json}
use iot_dashboard_flutter.Security.Crypto.{Crypto}
use iot_dashboard_flutter.Security.Access.{UserClaims, Permission, can_access, role_to_string}
use iot_dashboard_flutter.Security.Auth.{AuthenticationService, validate_token}
use iot_dashboard_flutter.Http.{HttpRequest, HttpResponse, get_header, error_response}
use iot_dashboard_flutter.Http.Router.{Passage, Middleware}

unfoldable pub is_public_path : Str → Bool
is_public_path path =
    path == str "/health" || (path == str "/auth/login" || path == str "/auth/refresh")

-- The claims as request headers.
unfoldable pub inject_claims : UserClaims → HttpRequest → HttpRequest
inject_claims claims req = record req {
  headers = insert (str "x-role") (role_to_string claims.role) (
      insert (str "x-username") claims.username
        (insert (str "x-user-id") claims.user_id req.headers));
}

abbrev pub refuse : HttpRequest → HttpResponse → Exn Passage
refuse req res = returns (record { proceeds = false; req = req; res = res })

abbrev pub pass : HttpRequest → HttpResponse → Exn Passage
pass req res = returns (record { proceeds = true; req = req; res = res })

-- What the program's state gives the middleware.
pub record AuthState (S : Type 0) : Type 0 where
  pub service : S → AuthenticationService
  pub clock : S → ℕ

module _ (crypto : Crypto) (json : Json) {S : Type 0} (state : AuthState S) where
  open state use {service, clock}

  -- The token's claims, or the refusal, handed to the rest of the middleware.
  unfoldable pub with_claims :
      S → HttpRequest → HttpResponse → (UserClaims → Exn Passage) → Exn Passage
  with_claims s req res continue =
      let auth : Str = get_header req (str "authorization") in
      if is_empty auth || not (starts_with (str "Bearer ") auth)
      then refuse req (error_response res 401 (str "Unauthorized") (str "Missing Bearer token"))
      else elim (validate_token crypto json (service s) (clock s) (drop 7 auth)) [
        | throws ↦ throws
        | returns (err e) ↦
            refuse req
              (error_response res 401 (str "Unauthorized") (str "Invalid or expired token"))
        | returns (ok claims) ↦ continue claims
      ]

  unfoldable pub token_middleware : Middleware S
  unfolding with_claims
  token_middleware s req res =
      if is_public_path req.path
      then pass req res
      else with_claims s req res (λ claims. pass (inject_claims claims req) res)

  unfoldable pub auth_middleware : Str → Permission → Middleware S
  auth_middleware resource permission s req res =
      if is_public_path req.path
      then pass req res
      else with_claims s req res λ claims.
        if not (can_access claims.role resource permission)
        then refuse req (
            error_response res 403 (str "Forbidden")
              (str "Insufficient permissions for this resource"))
        else pass (inject_claims claims req) res
