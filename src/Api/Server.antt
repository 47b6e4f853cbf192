-- ===== src/Api/Server.antt =====
-- src/api/application.cpp (Initialize and RegisterHttpRoutes): the parts that the controllers
-- share, and the handlers of the routes on them.
pub mod Routes
pub mod Posting
pub mod Revoked
pub mod Logins
use iot_dashboard_flutter.Common.{ℕ, Str, str}
use iot_dashboard_flutter.Exn.{Exn, returns}
use iot_dashboard_flutter.Json.{Json}
use iot_dashboard_flutter.Security.Crypto.{Crypto}
use iot_dashboard_flutter.Security.Auth.{AuthenticationService}
use iot_dashboard_flutter.Http.{HttpRequest, HttpResponse}
use iot_dashboard_flutter.Http.Router.{RouteHandler, HttpRouter}
use iot_dashboard_flutter.Automation.{RuleRepository}
use iot_dashboard_flutter.Automation.Json.{JsonNumbers}
use iot_dashboard_flutter.Database.Sensors.{SensorTable}
use iot_dashboard_flutter.Devices.Manager.{DeviceRepository, Mqtt, Numbers, DeviceManager}
use iot_dashboard_flutter.Network.PubSub.{WsServer}
use iot_dashboard_flutter.Api.Middleware.{AuthState}
use iot_dashboard_flutter.Api.Application.{Handlers, register_http_routes}
use iot_dashboard_flutter.Api.Controllers.Auth.{login_handler, refresh_handler, logout_handler}
use iot_dashboard_flutter.Api.Controllers.Devices
use iot_dashboard_flutter.Api.Controllers.Sensors.{list_readings_handler}
use iot_dashboard_flutter.Api.Controllers.Automation.{
  list_rules_handler, add_rule_handler, remove_rule_handler,
}
use iot_dashboard_flutter.Api.Controllers.Status.{
  MetricsController, metrics_handler, health_handler,
}

-- The libraries and the stores, and the types of what they keep.
pub record Parts : Type 1 where
  pub crypto : Crypto
  pub json : Json
  pub Number : Type 0
  pub numbers : JsonNumbers json Number
  pub doubles : Numbers json
  pub Repository : Type 0
  pub store : DeviceRepository Repository
  pub Client : Type 0
  pub client : Mqtt Client
  pub StatusCallback : Type 0
  pub SensorCallback : Type 0
  pub Table : Type 0
  pub table : SensorTable Number Table
  pub Session : Type 0

-- What a request finds outside the program: the clock as the middleware and each of the two tokens
-- of a reply read it (in seconds), the clocks in nanoseconds, the text that a move leaves, and the
-- text of an exception.
pub record Outside : Type 0 where
  pub clock : ℕ
  pub first : ℕ
  pub second : ℕ
  pub now : ℕ
  pub steady : ℕ
  pub moved : Str
  pub what : Str

module _ (parts : Parts) where
  open parts use {
    crypto, json, Number, numbers, doubles, Repository, store, Client, client, StatusCallback,
    SensorCallback, Table, table, Session,
  }

  pub record ServerState : Type 0 where
    pub auth_service : AuthenticationService
    pub device_manager : DeviceManager Repository Client StatusCallback SensorCallback
    pub rule_repository : RuleRepository Number json.Value
    pub sensor_repo : Table
    pub ws_server : WsServer Session
    pub metrics_controller : MetricsController
    pub health_start_time : ℕ
    pub outside : Outside

  unfoldable pub auth_state : AuthState ServerState
  auth_state = record { service = λ s. s.auth_service; clock = λ s. s.outside.clock }

  unfoldable pub health_route : RouteHandler ServerState
  health_route s req res =
      (s, returns (health_handler json (str "1.0.0") s.health_start_time s.outside.steady res))

  unfoldable pub login_route : RouteHandler ServerState
  login_route s req res =
      (s, login_handler crypto json s.outside.first s.outside.second s.auth_service req res)

  unfoldable pub refresh_route : RouteHandler ServerState
  refresh_route s req res =
      (s, refresh_handler crypto json s.outside.first s.outside.second s.auth_service req res)

  unfoldable pub logout_route : RouteHandler ServerState
  logout_route s req res =
      let out = logout_handler crypto json s.auth_service req res in
      (record s { auth_service = out.0 }, returns out.1)

  unfoldable pub list_devices_route : RouteHandler ServerState
  list_devices_route s req res =
      (s, returns (Devices.list_devices store client json doubles s.device_manager req res))

  unfoldable pub add_device_route : RouteHandler ServerState
  add_device_route s req res =
      let out =
        Devices.add_device store client json doubles s.outside.now s.device_manager req res in
      (record s { device_manager = out.0 }, out.1)

  unfoldable pub remove_device_route : RouteHandler ServerState
  remove_device_route s req res =
      let out = Devices.remove_device store client json doubles s.device_manager req res in
      (record s { device_manager = out.0 }, returns out.1)

  unfoldable pub send_command_route : RouteHandler ServerState
  send_command_route s req res =
      let out = Devices.command_handler store client json doubles s.device_manager req res in
      (record s { device_manager = out.0 }, out.1)

  unfoldable pub list_readings_route : RouteHandler ServerState
  list_readings_route s req res =
      (s, returns (list_readings_handler json numbers table s.sensor_repo req res))

  unfoldable pub list_rules_route : RouteHandler ServerState
  list_rules_route s req res = (s, returns (list_rules_handler json numbers s.rule_repository res))

  unfoldable pub add_rule_route : RouteHandler ServerState
  add_rule_route s req res =
      let out =
        add_rule_handler json numbers s.outside.moved s.outside.what s.rule_repository req res in
      (record s { rule_repository = out.0 }, out.1)

  unfoldable pub remove_rule_route : RouteHandler ServerState
  remove_rule_route s req res =
      let out = remove_rule_handler json s.rule_repository req res in
      (record s { rule_repository = out.0 }, returns out.1)

  unfoldable pub metrics_route : RouteHandler ServerState
  metrics_route s req res =
      (s, returns (metrics_handler json s.metrics_controller s.ws_server s.outside.steady res))

  unfoldable pub controllers : Handlers ServerState
  controllers = record {
    health = health_route;
    login = login_route;
    refresh = refresh_route;
    logout = logout_route;
    list_devices = list_devices_route;
    add_device = add_device_route;
    remove_device = remove_device_route;
    send_command = send_command_route;
    list_readings = list_readings_route;
    list_rules = list_rules_route;
    add_rule = add_rule_route;
    remove_rule = remove_rule_route;
    metrics = metrics_route;
  }

  -- `m_httpServer->Router()` after RegisterHttpRoutes
  unfoldable pub app_router : HttpRouter ServerState
  app_router = register_http_routes crypto json auth_state controllers
