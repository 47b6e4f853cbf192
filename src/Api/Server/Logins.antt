-- ===== src/Api/Server/Logins.antt =====
-- A login to the application, and what its token opens.
use iot_dashboard_flutter.Common.{
  true, false, [], str_beq, ◌||◌, is_empty, some, Str, str, ◌≡◌, ◌∙◌, str_instance,
}
use iot_dashboard_flutter.Exn.{returns}
use iot_dashboard_flutter.Json.{value_text}
use iot_dashboard_flutter.Security.Auth.{login}
use iot_dashboard_flutter.Http.{HttpRequest, HttpResponse, post}
use iot_dashboard_flutter.Http.Router.{dispatch}
use iot_dashboard_flutter.Http.Router.Laws.{answer}
use iot_dashboard_flutter.Api.Middleware.{is_public_path}
use iot_dashboard_flutter.Api.Application.Guards.Open.{dispatch-public}
use iot_dashboard_flutter.Api.Controllers.Auth.{login_handler, login_reply}
use iot_dashboard_flutter.Api.Server.{
  Parts, ServerState, auth_state, controllers, app_router, login_route,
}
use iot_dashboard_flutter.Api.Server.Routes.{first_route-login}

module _ (parts : Parts) where
  open parts use {crypto, json}

  -- A request for a login, as the handler reads it.
  pub record IsLogin (req : HttpRequest) (username password : Str) : Type 0 where
    pub method : req.method ≡ post
    pub path : req.path ≡ str "/auth/login"
    pub body : json.Value
    pub parsed : json.parse req.body ≡ some body
    pub named : value_text json body (str "username") [] ≡ returns username
    pub proved : value_text json body (str "password") [] ≡ returns password
    pub given : (is_empty username || is_empty password) ≡ false

  login_path : (req : HttpRequest) → req.path ≡ str "/auth/login" → is_public_path req.path ≡ true
  unfolding is_public_path str str_beq
  login_path req path = rw (path)

  -- A login is answered over the router with the reply of the service, and changes nothing.
  pub dispatch-login :
      (s : ServerState parts) (req : HttpRequest) (res : HttpResponse) (username password : Str)
      → IsLogin req username password
      → dispatch (app_router parts) s req res ≡ (
        s,
        returns (
            login_reply crypto json res (
              login crypto json s.auth_service s.outside.first s.outside.second username password)),
      )
  unfolding app_router answer login_route login_handler
  dispatch-login s req res username password l =
      dispatch-public crypto json (auth_state parts) (controllers parts) s req res
        (login_path req l.path)
      ∙ rw (first_route-login parts req l.path l.method, answer)
          (rw (l.parsed, login_handler) (rw (l.named) (rw (l.proved) (rw (l.given)))))
