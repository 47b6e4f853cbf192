-- ===== src/Api/Application.antt =====
-- src/api/application.cpp (RegisterHttpRoutes) and the Register methods of src/api/controllers: which
-- middleware and routes the router holds. The handlers are fields of `Handlers`.
pub mod Guards
use iot_dashboard_flutter.Common.{ℕ, List, [], Str, str}
use iot_dashboard_flutter.Json.{Json}
use iot_dashboard_flutter.Security.Crypto.{Crypto}
use iot_dashboard_flutter.Security.Access.{Permission, read, write}
use iot_dashboard_flutter.Http.{get, post, delete}
use iot_dashboard_flutter.Http.Router.{RouteHandler, HttpRouter, add_route, add_middleware}
use iot_dashboard_flutter.Api.Middleware.{AuthState, auth_middleware}

pub record Handlers (S : Type 0) : Type 0 where
  pub health : RouteHandler S
  pub login : RouteHandler S
  pub refresh : RouteHandler S
  pub logout : RouteHandler S
  pub list_devices : RouteHandler S
  pub add_device : RouteHandler S
  pub remove_device : RouteHandler S
  pub send_command : RouteHandler S
  pub list_readings : RouteHandler S
  pub list_rules : RouteHandler S
  pub add_rule : RouteHandler S
  pub remove_rule : RouteHandler S
  pub metrics : RouteHandler S

-- `HttpRouter{}`
unfoldable pub new_router : {S : Type 0} → HttpRouter S
new_router = record { routes = []; middlewares = [] }

module _ (crypto : Crypto) (json : Json) {S : Type 0} (state : AuthState S)
    (handlers : Handlers S) where
  -- `router.AddMiddleware( MakeAuthMiddleware( m_authService, resource, permission ) )`
  unfoldable pub add_guard : Str → Permission → HttpRouter S → HttpRouter S
  add_guard resource permission router =
      add_middleware router (auth_middleware crypto json state resource permission)

  unfoldable pub register_health : HttpRouter S → HttpRouter S
  register_health router = add_route router get (str "/health") handlers.health

  unfoldable pub register_auth : HttpRouter S → HttpRouter S
  register_auth router =
      let router₁ = add_route router post (str "/auth/login") handlers.login in
      let router₂ = add_route router₁ post (str "/auth/refresh") handlers.refresh in
      add_route router₂ post (str "/auth/logout") handlers.logout

  unfoldable pub register_devices : HttpRouter S → HttpRouter S
  register_devices router =
      let router₁ = add_guard (str "devices") read router in
      let router₂ = add_route router₁ get (str "/devices") handlers.list_devices in
      let router₃ = add_guard (str "devices") write router₂ in
      let router₄ = add_route router₃ post (str "/devices") handlers.add_device in
      let router₅ = add_guard (str "devices") write router₄ in
      let router₆ = add_route router₅ delete (str "/devices") handlers.remove_device in
      let router₇ = add_guard (str "devices") write router₆ in
      add_route router₇ post (str "/commands") handlers.send_command

  unfoldable pub register_sensors : HttpRouter S → HttpRouter S
  register_sensors router =
      add_route (add_guard (str "sensors") read router) get (str "/sensors") handlers.list_readings

  unfoldable pub register_automation : HttpRouter S → HttpRouter S
  register_automation router =
      let router₁ = add_guard (str "automation") read router in
      let router₂ = add_route router₁ get (str "/automation/rules") handlers.list_rules in
      let router₃ = add_guard (str "automation") write router₂ in
      let router₄ = add_route router₃ post (str "/automation/rules") handlers.add_rule in
      let router₅ = add_guard (str "automation") write router₄ in
      add_route router₅ delete (str "/automation/rules") handlers.remove_rule

  unfoldable pub register_metrics : HttpRouter S → HttpRouter S
  register_metrics router =
      add_route (add_guard (str "metrics") read router) get (str "/metrics") handlers.metrics

  unfoldable pub register_http_routes : HttpRouter S
  register_http_routes = register_metrics (
      register_automation
        (register_sensors (register_devices (register_auth (register_health new_router)))))
