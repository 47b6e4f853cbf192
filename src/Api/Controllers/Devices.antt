-- ===== src/Api/Controllers/Devices.antt =====
-- src/api/controllers/device_controller.cpp: the four handlers, on the manager's state.
pub mod Replies
use iot_dashboard_flutter.Common.{
  ℕ, Bool, true, false, not, ◌||◌, ◌==◌, is_empty, if◌then◌else◌, List, [], ◌∷◌, map, length,
  Option, none, some, Str, str, str_instance,
}
use iot_dashboard_flutter.Errors.{Error, device_not_found, device_offline, Result, ok, err}
use iot_dashboard_flutter.Exn.{Exn, returns, throws, ◌>>=◌}
use iot_dashboard_flutter.Json.{Json, ℤ, pos, value_text, value_json}
use iot_dashboard_flutter.Http.{
  HttpRequest, HttpResponse, get_query_param, json_response, no_content, error_response,
}
use iot_dashboard_flutter.Devices.Manager.{
  DeviceInfo, RegisterDeviceRequest, DeviceFilter, DeviceRepository, Mqtt, Numbers, DeviceManager,
  register, unregister, list,
}
use iot_dashboard_flutter.Devices.Manager.Messages.{send_command}

-- The body of a request for a command, its parameters as text.
pub record CommandRequest : Type 0 where
  pub device_id : Str
  pub command : Str
  pub params : Str

module _ (json : Json) where
  open json use {Value, text, boolean, integer, object, array, dump, parse}

  unfoldable pub device_to_json : DeviceInfo → Value
  device_to_json d = object (
      (str "id", text d.id)
      ∷ (str "name", text d.name)
      ∷ (str "type", text d.type)
      ∷ (str "protocol", text d.protocol)
      ∷ (str "address", text d.address)
      ∷ (str "online", boolean d.is_connected)
      ∷ [])

  unfoldable pub list_reply : HttpResponse → Result (List DeviceInfo) → HttpResponse
  unfolding device_to_json
  list_reply res (err e) =
      error_response res 500 (str "InternalError") (str "Failed to list devices")
  list_reply res (ok devices) = json_response res 200 (
      dump (
        object (
          (str "devices", array (map device_to_json devices))
          ∷ (str "total", integer (pos (length devices)))
          ∷ [])))

  unfoldable pub read_request : Value → Exn RegisterDeviceRequest
  read_request body = value_text json body (str "id") [] >>= λ id.
      value_text json body (str "name") [] >>= λ name.
      value_text json body (str "type") [] >>= λ type.
      value_text json body (str "protocol") (str "mqtt") >>= λ protocol.
      value_text json body (str "address") [] >>= λ address.
      returns (record { id = id; name = name; type = type; protocol = protocol; address = address })

  unfoldable pub register_reply : HttpResponse → Result DeviceInfo → HttpResponse
  unfolding device_to_json
  register_reply res (err e) =
      error_response res 409 (str "Conflict") (str "Device already exists or invalid data")
  register_reply res (ok device) = json_response res 201 (dump (device_to_json device))

  unfoldable pub unregister_reply : HttpResponse → Result (Unit {0}) → HttpResponse
  unregister_reply res (err e) = error_response res 404 (str "NotFound") (str "Device not found")
  unregister_reply res (ok _) = no_content res

  unfoldable pub read_command : Value → Exn CommandRequest
  read_command body = value_text json body (str "device_id") [] >>= λ device_id.
      value_text json body (str "command") [] >>= λ command.
      value_json json body (str "parameters") (object []) >>= λ params.
      returns (record { device_id = device_id; command = command; params = dump params })

  -- The test of the error of a command.
  unfoldable pub command_error : HttpResponse → Error → HttpResponse
  command_error res device_not_found =
      error_response res 404 (str "NotFound") (str "Device not found")
  command_error res device_offline =
      error_response res 422 (str "DeviceOffline") (str "Device is offline")
  command_error res _ = error_response res 500 (str "InternalError") (str "Failed to send command")

  unfoldable pub command_reply : Str → Str → HttpResponse → Result (Unit {0}) → HttpResponse
  unfolding command_error
  command_reply device_id command res (err e) = command_error res e
  command_reply device_id command res (ok _) = json_response res 202 (
      dump (
        object (
          (str "status", text (str "accepted"))
          ∷ (str "device_id", text device_id)
          ∷ (str "command", text command)
          ∷ [])))

module _ {R M C D : Type 0} (store : DeviceRepository R) (client : Mqtt M) (json : Json)
    (numbers : Numbers json) where
  open json use {object, dump, parse}

  unfoldable pub list_devices : DeviceManager R M C D → HttpRequest → HttpResponse → HttpResponse
  unfolding list_reply
  list_devices s req res =
      let filter : DeviceFilter = record {
        type = get_query_param req (str "type");
        online_only = get_query_param req (str "online") == str "true";
      } in
      list_reply json res (list store client filter s)

  unfoldable pub add_device :
      ℕ
      → DeviceManager R M C D
      → HttpRequest
      → HttpResponse
      → DeviceManager R M C D × Exn HttpResponse
  unfolding read_request register_reply
  add_device now s req res = elim (parse req.body) [
    | none ↦ (s, returns (error_response res 400 (str "BadRequest") (str "Invalid JSON")))
    | some body ↦ elim (read_request json body) [
      | throws ↦ (s, throws)
      | returns request ↦
          if is_empty request.id || is_empty request.name
          then (
            s,
            returns (error_response res 400 (str "BadRequest") (str "id and name are required")),
          )
          else (
            (register store client now request s).0,
            returns (register_reply json res (register store client now request s).1),
          )
    ]
  ]

  unfoldable pub remove_device :
      DeviceManager R M C D → HttpRequest → HttpResponse → DeviceManager R M C D × HttpResponse
  unfolding unregister_reply
  remove_device s req res =
      let id : Str = get_query_param req (str "id") in
      if is_empty id
      then (s, error_response res 400 (str "BadRequest") (str "id query parameter required"))
      else (
        (unregister store client id s).0,
        unregister_reply json res (unregister store client id s).1,
      )

  unfoldable pub command_handler :
      DeviceManager R M C D → HttpRequest → HttpResponse → DeviceManager R M C D × Exn HttpResponse
  unfolding command_reply read_command
  command_handler s req res = elim (parse req.body) [
    | none ↦ (s, returns (error_response res 400 (str "BadRequest") (str "Invalid JSON")))
    | some body ↦ elim (read_command json body) [
      | throws ↦ (s, throws)
      | returns request ↦
          if is_empty request.device_id || is_empty request.command
          then (
            s,
            returns
                (error_response res 400 (str "BadRequest") (str "device_id and command required")),
          )
          else (
            (send_command store client json numbers request.device_id request.command request.params
                s).0,
            returns (
                command_reply json request.device_id request.command res
                  (send_command store client json numbers request.device_id request.command
                    request.params s).1),
          )
    ]
  ]
