-- ===== src/Api/Controllers/Auth.antt =====
-- src/api/controllers/auth_controller.cpp: the three handlers. They read the clock once for each token.
-- A `type_error` of `body.value` is not caught in the handler.
pub mod Logout
use iot_dashboard_flutter.Common.{
  ℕ, Bool, true, false, not, ◌||◌, is_empty, if◌then◌else◌, drop, List, [], ◌∷◌, Option, none, some,
  Str, str, str_instance,
}
use iot_dashboard_flutter.Common.Search.{starts_with}
use iot_dashboard_flutter.Errors.{Result, ok, err}
use iot_dashboard_flutter.Exn.{Exn, returns, throws, ◌>>=◌}
use iot_dashboard_flutter.Json.{Json, pos, value_text}
use iot_dashboard_flutter.Security.Crypto.{Crypto}
use iot_dashboard_flutter.Security.Access.{TokenPair}
use iot_dashboard_flutter.Security.Auth.{AuthenticationService, login, refresh_token, logout}
use iot_dashboard_flutter.Http.{
  HttpRequest, HttpResponse, get_header, json_response, no_content, error_response,
}

module _ (crypto : Crypto) (json : Json) where
  open json use {Value, parse, dump, object, text, integer}

  unfoldable pub login_reply : HttpResponse → Result TokenPair → HttpResponse
  login_reply res (err e) = error_response res 401 (str "Unauthorized") (str "Invalid credentials")
  login_reply res (ok pair) = json_response res 200 (
      dump (
        object (
          (str "access_token", text pair.access_token)
          ∷ (str "refresh_token", text pair.refresh_token)
          ∷ (str "expires_in", integer (pos pair.expires_in_seconds))
          ∷ (str "token_type", text (str "Bearer"))
          ∷ [])))

  unfoldable pub login_handler :
      ℕ → ℕ → AuthenticationService → HttpRequest → HttpResponse → Exn HttpResponse
  unfolding login_reply
  login_handler now now' s req res = elim (parse req.body) [
    | none ↦ returns (error_response res 400 (str "BadRequest") (str "Invalid JSON body"))
    | some body ↦ value_text json body (str "username") [] >>= λ username.
        value_text json body (str "password") [] >>= λ password. returns (
          if is_empty username || is_empty password
          then error_response res 400 (str "BadRequest") (str "username and password required")
          else login_reply res (login crypto json s now now' username password))
  ]

  unfoldable pub refresh_reply : HttpResponse → Result TokenPair → HttpResponse
  refresh_reply res (err e) =
      error_response res 401 (str "Unauthorized") (str "Invalid or expired refresh token")
  refresh_reply res (ok pair) = json_response res 200 (
      dump (
        object (
          (str "access_token", text pair.access_token)
          ∷ (str "expires_in", integer (pos pair.expires_in_seconds))
          ∷ (str "token_type", text (str "Bearer"))
          ∷ [])))

  unfoldable pub refresh_handler :
      ℕ → ℕ → AuthenticationService → HttpRequest → HttpResponse → Exn HttpResponse
  unfolding refresh_reply
  refresh_handler now now' s req res = elim (parse req.body) [
    | none ↦ returns (error_response res 400 (str "BadRequest") (str "Invalid JSON body"))
    | some body ↦ value_text json body (str "refresh_token") [] >>= λ token.
        if is_empty token
        then returns (error_response res 400 (str "BadRequest") (str "refresh_token required"))
        else refresh_token crypto json s now now' token >>= λ result.
            returns (refresh_reply res result)
  ]

  unfoldable pub logout_handler :
      AuthenticationService → HttpRequest → HttpResponse → AuthenticationService × HttpResponse
  logout_handler s req res =
      let auth : Str = get_header req (str "authorization") in
      if starts_with (str "Bearer ") auth
      then ((logout crypto json s (drop 7 auth)).0, no_content res)
      else (s, no_content res)
