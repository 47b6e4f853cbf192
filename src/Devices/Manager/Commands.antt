-- ===== src/Devices/Manager/Commands.antt =====
-- Commands go to the devices that are online.
use iot_dashboard_flutter.Common.{
  ℕ, Bool, false, ◌==◌, str_instance, if◌then◌else◌, some, Str, str, All, ◌≡◌, ◌≢◌, ap, sym, subst,
  eq_self, ◌∙◌, arith,
}
use iot_dashboard_flutter.Errors.{ok, err, device_offline}
use iot_dashboard_flutter.Exn.{returns}
use iot_dashboard_flutter.Json.{Json, value_text}
use iot_dashboard_flutter.Network.Mqtt.{at_least_once}
use iot_dashboard_flutter.Devices.Manager.{
  DeviceInfo, DeviceRepository, Mqtt, Numbers, DeviceManager, topic_of, build_command_topic,
}
use iot_dashboard_flutter.Devices.Manager.Messages.{
  route, handle_mqtt_message, handle_status_message, set_status, update_known, build_command_json,
  send_command,
}
use iot_dashboard_flutter.Devices.Manager.Topics.{handle_mqtt_message-topic_of}

-- What the interface promises of a store: it gives the device asked for, where the id is a key that it
-- can hold, and an update of a device that it knows is kept, whether it is connected at least.
pub record IsStore {R : Type 0} (IsKey : Str → Type 0) (store : DeviceRepository R) : Type 0 where
  pub same_id :
      (r : R) (device_id : Str) (d : DeviceInfo)
      → IsKey device_id
      → store.get_by_id device_id r ≡ ok d
      → d.id ≡ device_id
  pub keeps_connection :
      (r : R) (d changed : DeviceInfo)
      → store.get_by_id changed.id r ≡ ok d
      → (kept : DeviceInfo) × (store.get_by_id changed.id (store.update changed r).0 ≡ ok kept)
        × (kept.is_connected ≡ changed.is_connected)

no_slash : All (λ c. c ≢ b'/') (str "status")
unfolding str
no_slash = (
  (λ e. omega arith),
  (
    (λ e. omega arith),
    ((λ e. omega arith), ((λ e. omega arith), ((λ e. omega arith), ((λ e. omega arith), tt)))),
  ),
)

module _ {R M C D : Type 0} (store : DeviceRepository R) (client : Mqtt M) (json : Json)
    (numbers : Numbers json) where
  send_command-connected :
      (device_id command params : Str) (s : DeviceManager R M C D) (d : DeviceInfo)
      → store.get_by_id device_id s.repository ≡ ok d
      → send_command store client json numbers device_id command params s ≡ (
          if d.is_connected
          then (let sent =
                client.publish
                  (build_command_topic device_id)
                  (build_command_json json command params)
                  at_least_once
                  false
                  s.mqtt in
              (record s { mqtt = sent.0 }, sent.1))
          else (s, err device_offline))
  unfolding send_command
  send_command-connected device_id command params s d found =
      rw (found, send_command) (ground arith)

  handle_status_message-eq :
      (now : ℕ) (device_id payload : Str) (s : DeviceManager R M C D) (j : json.Value)
      (status : Str)
      → json.parse payload ≡ some j
      → value_text json j (str "status") (str "offline") ≡ returns status
      → (handle_status_message store client json numbers now device_id payload s).0
        ≡ set_status store client json numbers now device_id (status == str "online") s
  unfolding handle_status_message
  handle_status_message-eq now device_id payload s j status parsed told =
      rw (parsed, handle_status_message) (rw (told))

  route-status :
      (now : ℕ) (device_id payload : Str) (s : DeviceManager R M C D)
      → route store client json numbers now device_id (str "status") payload s
        ≡ handle_status_message store client json numbers now device_id payload s
  unfolding route
  route-status now device_id payload s = rw (eq_self (str "status"))

  set_status-known :
      (now : ℕ) (device_id : Str) (online : Bool) (s : DeviceManager R M C D) (d : DeviceInfo)
      → store.get_by_id device_id s.repository ≡ ok d
      → set_status store client json numbers now device_id online s ≡ record s {
        repository =
            (store.update (record d { is_connected = online; last_seen = now }) s.repository).0;
      }
  unfolding set_status update_known
  set_status-known now device_id online s d found = rw (found, set_status, update_known)

  pub send_command-handle_mqtt_message :
      {IsKey : Str → Type 0}
      → IsStore IsKey store
      → (now : ℕ) (device_id payload status command params : Str) (s : DeviceManager R M C D)
        (j : json.Value) (d : DeviceInfo)
      → IsKey device_id
      → json.parse payload ≡ some j
      → value_text json j (str "status") (str "offline") ≡ returns status
      → store.get_by_id device_id s.repository ≡ ok d
      → let t =
          (handle_mqtt_message store client json numbers now
            (topic_of device_id (str "status"))
            payload
            s).0 in
        send_command store client json numbers device_id command params t ≡ (
          if status == str "online"
          then (let sent =
                client.publish
                  (build_command_topic device_id)
                  (build_command_json json command params)
                  at_least_once
                  false
                  s.mqtt in
              (record t { mqtt = sent.0 }, sent.1))
          else (t, err device_offline))
  send_command-handle_mqtt_message works now device_id payload status command params s j d key
        parsed told found =
      let online = status == str "online" in
      let changed : DeviceInfo = record d { is_connected = online; last_seen = now } in
      let same : device_id ≡ d.id = sym (works.same_id s.repository device_id d key found) in
      let known : store.get_by_id changed.id s.repository ≡ ok d =
        ap (λ i. store.get_by_id i s.repository) (sym same) ∙ found in
      let (kept, stored, connection) = works.keeps_connection s.repository d changed known in
      let after : DeviceManager R M C D = record s {
        repository = (store.update changed s.repository).0;
      } in
      let handled =
        ap (λ p. p.0)
          (handle_mqtt_message-topic_of store client json numbers now device_id (str "status")
              payload s no_slash
            ∙ route-status now device_id payload s)
        ∙ handle_status_message-eq now device_id payload s j status parsed told
        ∙ set_status-known now device_id online s d found in
      let found_after : store.get_by_id device_id after.repository ≡ ok kept =
        ap (λ i. store.get_by_id i after.repository) same ∙ stored in
      subst
        (λ t. send_command store client json numbers device_id command params t ≡ (
          if online
          then (let sent =
                client.publish (build_command_topic device_id)
                  (build_command_json json command params) at_least_once false s.mqtt in
              (record t { mqtt = sent.0 }, sent.1))
          else (t, err device_offline)))
        (sym handled)
        (send_command-connected device_id command params after kept found_after ∙ rw (connection))
