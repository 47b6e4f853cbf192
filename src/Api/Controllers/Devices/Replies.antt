-- ===== src/Api/Controllers/Devices/Replies.antt =====
-- A command for a device that said it is offline.
use iot_dashboard_flutter.Common.{
  ℕ, false, ◌||◌, ◌==◌, str_instance, is_empty, some, Str, str, ◌≡◌, ◌∙◌,
}
use iot_dashboard_flutter.Errors.{device_offline, ok, err}
use iot_dashboard_flutter.Exn.{returns}
use iot_dashboard_flutter.Json.{Json, value_text}
use iot_dashboard_flutter.Http.{HttpRequest, HttpResponse, error_response}
use iot_dashboard_flutter.Devices.Manager.{
  DeviceInfo, DeviceRepository, Mqtt, Numbers, DeviceManager, topic_of,
}
use iot_dashboard_flutter.Devices.Manager.Messages.{handle_mqtt_message, send_command}
use iot_dashboard_flutter.Devices.Manager.Commands.{IsStore, send_command-handle_mqtt_message}
use iot_dashboard_flutter.Api.Controllers.Devices.{
  CommandRequest, read_command, command_reply, command_error, command_handler,
}

module _ {R M C D : Type 0} (store : DeviceRepository R) (client : Mqtt M) (json : Json)
    (numbers : Numbers json) where
  -- A request for a command to a known device whose last message, a status, was not "online" is answered
  -- with 422, changes nothing and publishes nothing. The store keeps what it is told to update, and gives
  -- back the device's id.
  pub command_handler-offline :
      {IsKey : Str → Type 0}
      → IsStore IsKey store
      → (now : ℕ) (payload status : Str) (s : DeviceManager R M C D) (j body : json.Value)
        (d : DeviceInfo) (req : HttpRequest) (res : HttpResponse) (request : CommandRequest)
      → IsKey request.device_id
      → json.parse payload ≡ some j
      → value_text json j (str "status") (str "offline") ≡ returns status
      → (status == str "online") ≡ false
      → store.get_by_id request.device_id s.repository ≡ ok d
      → json.parse req.body ≡ some body
      → read_command json body ≡ returns request
      → (is_empty request.device_id || is_empty request.command) ≡ false
      → let t =
          (handle_mqtt_message store client json numbers now
            (topic_of request.device_id (str "status"))
            payload
            s).0 in
        command_handler store client json numbers t req res
        ≡ (t, returns (error_response res 422 (str "DeviceOffline") (str "Device is offline")))
  unfolding command_handler command_reply command_error
  command_handler-offline works now payload status s j body d req res request key parsed told
        offline found read requested given =
      let t =
        (handle_mqtt_message store client json numbers now
          (topic_of request.device_id (str "status")) payload s).0 in
      let refused =
        send_command-handle_mqtt_message store client json numbers works now request.device_id
          payload status request.command request.params s j d key parsed told found in
      let denied : send_command store client json numbers request.device_id request.command
            request.params t
          ≡ (t, err device_offline) =
        refused ∙ rw (offline) in
      rw (read, command_handler) (rw (requested) (rw (given) (rw (denied))))
