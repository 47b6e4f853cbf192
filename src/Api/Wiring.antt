-- ===== src/Api/Wiring.antt =====
-- src/api/application.cpp: the callbacks that join the device manager, the heartbeat monitor, the
-- rules and the WebSocket server, and the first user. A call of SendCommand from a callback is a
-- result, a `Command`.
pub mod Sockets
pub mod Subscriptions
use iot_dashboard_flutter.Common.{
  ℕ, Bool, true, false, not, ◌==◌, is_empty, if◌then◌else◌, map, List, [], ◌∷◌, ◌++◌, Option, none,
  some, Str, str, str_instance,
}
use iot_dashboard_flutter.Errors.{Result, ok, err}
use iot_dashboard_flutter.Exn.{Exn, returns, throws}
use iot_dashboard_flutter.Json.{Json, value_text}
use iot_dashboard_flutter.Security.Crypto.{Crypto}
use iot_dashboard_flutter.Security.Access.{Role, admin}
use iot_dashboard_flutter.Security.Auth.{AuthenticationService, register_user}
use iot_dashboard_flutter.Automation.{Double, Action, SensorReading, RuleRepository}
use iot_dashboard_flutter.Automation.Engine.{evaluate_rules}
use iot_dashboard_flutter.Network.PubSub.{
  ConnectionId, WsServer, send, broadcast, broadcast_to_topic, subscribe, unsubscribe,
}

-- `{"type":"pong"}`
unfoldable pub pong : Str
pong = b'{' ∷ b'"' ∷ (str "type" ++ (b'"' ∷ b':' ∷ b'"' ∷ (str "pong" ++ b'"' ∷ b'}' ∷ [])))

module _ (json : Json) where
  open json use {Value, parse, dump, object, text, boolean}

  -- The messages to sessions that a call of the server leads to.
  unfoldable pub act :
      {Session : Type 0}
      → ConnectionId
      → Str
      → Value
      → WsServer Session
      → WsServer Session × List (Session × Str)
  unfolding pong
  act id type j server =
      if type == str "subscribe"
      then elim (value_text json j (str "topic") []) [
        | throws ↦ (server, [])
        | returns topic ↦ if is_empty topic then (server, []) else (subscribe id topic server, [])
      ]
      else if type == str "unsubscribe"
      then elim (value_text json j (str "topic") []) [
        | throws ↦ (server, [])
        | returns topic ↦ if is_empty topic then (server, []) else (unsubscribe id topic server, [])
      ]
      else if type == str "ping"
      then (server, send id pong server)
      else (server, [])

  -- The handler of messages of WebSocket clients; what it throws is caught.
  unfoldable pub on_ws_message :
      {Session : Type 0}
      → ConnectionId
      → Str
      → WsServer Session
      → WsServer Session × List (Session × Str)
  unfolding act
  on_ws_message id payload server = elim (parse payload) [
    | none ↦ (server, [])
    | some j ↦ elim (value_text json j (str "type") []) [
      | throws ↦ (server, [])
      | returns type ↦ act id type j server
    ]
  ]

  unfoldable pub status_message : Str → Bool → Str
  status_message device_id online = dump (
      object (
        (str "type", text (str "device_status"))
        ∷ (
          str "data",
          object ((str "device_id", text device_id) ∷ (str "online", boolean online) ∷ []),
        )
        ∷ []))

  unfoldable pub timeout_message : Str → Str
  timeout_message device_id = dump (
      object (
        (str "type", text (str "device_status"))
        ∷ (
          str "data",
          object ((str "device_id", text device_id) ∷ (str "status", text (str "offline")) ∷ []),
        )
        ∷ []))

  -- The callback of the heartbeat monitor.
  unfoldable pub forward_timeout :
      {Session : Type 0} → Str → WsServer Session → List (Session × Str)
  unfolding timeout_message
  forward_timeout device_id server = broadcast (timeout_message device_id) server

  -- The callback of the device manager for a status.
  unfoldable pub forward_status :
      {Session : Type 0} → Str → Bool → WsServer Session → List (Session × Str)
  unfolding status_message
  forward_status device_id online server =
      broadcast (status_message device_id online) server
      ++ broadcast_to_topic (str "devices") (status_message device_id online) server

-- A call of SendCommand.
pub record Command : Type 0 where
  pub device_id : Str
  pub command : Str
  pub params : Str

module _ (json : Json) (double : Double) (number : double.Number → json.Value) where
  open json use {Value, dump, object, text}

  unfoldable pub reading_message : SensorReading double.Number → Str
  reading_message reading = dump (
      object (
        (str "type", text (str "sensor_data"))
        ∷ (
          str "data",
          object (
              (str "device_id", text reading.device_id)
              ∷ (str "sensor_type", text reading.sensor)
              ∷ (str "value", number reading.value)
              ∷ (str "unit", text reading.unit)
              ∷ []),
        )
        ∷ []))

  unfoldable pub command_of : Action Value → Command
  command_of a = record { device_id = a.device_id; command = a.command; params = dump a.parameters }

  unfoldable pub commands_of : Result (List (Action Value)) → List Command
  commands_of (err e) = []
  commands_of (ok actions) = map command_of actions

  -- The callback of the device manager for a reading: what the clients are sent, and the commands.
  unfoldable pub forward_reading :
      {Session : Type 0}
      → SensorReading double.Number
      → RuleRepository double.Number Value
      → WsServer Session
      → List (Session × Str) × List Command
  unfolding reading_message commands_of command_of
  forward_reading reading rules server = (
    broadcast_to_topic (str "sensors") (reading_message reading) server
        ++ broadcast_to_topic (str "sensors" ++ b'/' ∷ reading.device_id) (reading_message reading)
            server,
    commands_of (evaluate_rules double rules reading),
  )

-- SeedAdminUser; the result is ignored.
unfoldable pub seed_admin_user :
    Crypto → Json → Option (List ℕ) → AuthenticationService → AuthenticationService
seed_admin_user crypto json salt service =
    (register_user crypto json service salt (str "admin" ++ b'-' ∷ str "001") (str "admin")
      (str "admin123") admin).0
