-- ===== src/Devices/Manager/Messages.antt =====
-- src/devices/device_manager.cpp: messages from devices and commands to them.
use iot_dashboard_flutter.Common.{
  ℕ, ◌+◌, Bool, false, not, ◌==◌, str_instance, if◌then◌else◌, take, drop, [], ◌∷◌, Option, none,
  some, Str, str,
}
use iot_dashboard_flutter.Common.Search.{starts_with, rfind_byte}
use iot_dashboard_flutter.Errors.{Result, ok, err, device_offline}
use iot_dashboard_flutter.Exn.{Exn, returns, throws, ◌>>=◌}
use iot_dashboard_flutter.Json.{Json, value_text}
use iot_dashboard_flutter.Automation.{SensorReading}
use iot_dashboard_flutter.Network.Mqtt.{at_least_once}
use iot_dashboard_flutter.Devices.Manager.{
  DeviceInfo, DeviceRepository, Mqtt, Numbers, DeviceManager, Notice, status_notice, reading_notice,
  build_command_topic,
}

module _ (json : Json) where
  open json use {parse, dump, text, object}

  -- The keys of `nlohmann::json` objects are sorted; "command" stands before "parameters".
  unfoldable pub build_command_json : Str → Str → Str
  build_command_json command params_json = elim (parse params_json) [
    | none ↦ dump (object ((str "command", text command) ∷ (str "parameters", object []) ∷ []))
    | some params ↦ dump (object ((str "command", text command) ∷ (str "parameters", params) ∷ []))
  ]

module _ (json : Json) (numbers : Numbers json) where
  open json use {Value, find, get_text}
  open numbers use {Number, zero_number, get_number}

  value_number : Value → Str → Exn Number
  value_number j key =
      find j key >>= λ entry. elim entry [ none ↦ returns zero_number | some v ↦ get_number v ]

  quality_of : Value → Exn (Option Str)
  quality_of j = find j (str "quality") >>= λ entry. elim entry [
    | none ↦ returns none
    | some v ↦ get_text v >>= λ quality. returns (some quality)
  ]

  unfoldable pub read_reading : ℕ → Str → Value → Exn (SensorReading Number)
  unfolding value_number quality_of
  read_reading now device_id j = value_text json j (str "sensor_type") (str "unknown") >>= λ sensor.
      value_number j (str "value") >>= λ value. value_text json j (str "unit") [] >>= λ unit.
      quality_of j >>= λ quality. returns (record {
        device_id = device_id;
        sensor = sensor;
        value = value;
        unit = unit;
        timestamp = now;
        quality = quality;
      })

module _ {R M : Type 0} (store : DeviceRepository R) (client : Mqtt M) (json : Json)
    (numbers : Numbers json) where
  open json use {parse}
  open numbers use {Number}

  -- The device's record with what `change` sets, where the device is known.
  unfoldable pub update_known : (DeviceInfo → DeviceInfo) → Str → R → R
  update_known change device_id r = elim (store.get_by_id device_id r) [
    | err e ↦ r
    | ok d ↦ (store.update (change d) r).0
  ]

  module _ {C D : Type 0} where
    unfoldable pub notify_status : Option C → Str → Bool → Option (Notice Number C D)
    notify_status none device_id online = none
    notify_status (some cb) device_id online = some (status_notice cb device_id online)

    unfoldable pub set_status : ℕ → Str → Bool → DeviceManager R M C D → DeviceManager R M C D
    unfolding update_known
    set_status now device_id online s = record s {
      repository =
          update_known (λ d. record d { is_connected = online; last_seen = now }) device_id
            s.repository;
    }

    -- The body of the `try`; what it throws is caught, and nothing was changed before.
    unfoldable pub handle_status_message :
        ℕ → Str → Str → DeviceManager R M C D → DeviceManager R M C D × Option (Notice Number C D)
    unfolding set_status notify_status
    handle_status_message now device_id payload s = elim (parse payload) [
      | none ↦ (s, none)
      | some j ↦ elim (value_text json j (str "status") (str "offline")) [
        | throws ↦ (s, none)
        | returns status ↦
            let online = status == str "online" in
            (set_status now device_id online s, notify_status s.status_callback device_id online)
      ]
    ]

    unfoldable pub notify_reading : Option D → SensorReading Number → Option (Notice Number C D)
    notify_reading none reading = none
    notify_reading (some cb) reading = some (reading_notice cb reading)

    unfoldable pub handle_sensor_message :
        ℕ → Str → Str → DeviceManager R M C D → Option (Notice Number C D)
    unfolding read_reading notify_reading
    handle_sensor_message now device_id payload s = elim (parse payload) [
      | none ↦ none
      | some j ↦ elim (read_reading json numbers now device_id j) [
        | throws ↦ none
        | returns reading ↦ notify_reading s.sensor_callback reading
      ]
    ]

    -- The chain of tests of the subtopic.
    unfoldable pub route :
        ℕ
        → Str
        → Str
        → Str
        → DeviceManager R M C D
        → DeviceManager R M C D × Option (Notice Number C D)
    unfolding handle_status_message handle_sensor_message update_known
    route now device_id subtopic payload s =
        if subtopic == str "status"
        then handle_status_message now device_id payload s
        else if subtopic == str "sensors"
        then (s, handle_sensor_message now device_id payload s)
        else if subtopic == str "heartbeat"
        then (
          record s {
            repository = update_known (λ d. record d { last_seen = now }) device_id s.repository;
          },
          none,
        )
        else (s, none)

    unfoldable pub handle_mqtt_message :
        ℕ → Str → Str → DeviceManager R M C D → DeviceManager R M C D × Option (Notice Number C D)
    unfolding route
    handle_mqtt_message now topic payload s =
        if not (starts_with (str "devices/") topic)
        then (s, none)
        else elim (rfind_byte b'/' (drop 8 topic)) [
          | none ↦ (s, none)
          | some slash ↦
              route now (take slash (drop 8 topic)) (drop (slash + 1) (drop 8 topic)) payload s
        ]

    unfoldable pub send_command :
        Str → Str → Str → DeviceManager R M C D → DeviceManager R M C D × Result (Unit {0})
    unfolding build_command_json build_command_topic
    send_command device_id command parameters_json s =
        elim (store.get_by_id device_id s.repository) [
          | err e ↦ (s, err e)
          | ok d ↦
              if not d.is_connected
              then (s, err device_offline)
              else let sent =
                  client.publish (build_command_topic device_id)
                    (build_command_json json command parameters_json) at_least_once false s.mqtt in
                (record s { mqtt = sent.0 }, sent.1)
        ]
