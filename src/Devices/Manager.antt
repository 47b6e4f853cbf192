-- ===== src/Devices/Manager.antt =====
-- src/devices/device_manager.cpp and .hpp, over the interfaces of core/interfaces: a repository with
-- states `R`, an MQTT client with states `M`. A call of a callback is a result, a `Notice`: it is the
-- last thing that the handlers do. Times are ticks of the system clock.
pub mod Messages
pub mod Topics
pub mod Commands
use iot_dashboard_flutter.Common.{
  ℕ, ◌+◌, Bool, true, false, not, ◌==◌, str_instance, is_empty, if◌then◌else◌, keep_if, take, drop,
  List, [], ◌∷◌, ◌++◌, Option, none, some, Str, str,
}
use iot_dashboard_flutter.Common.Search.{starts_with, rfind_byte}
use iot_dashboard_flutter.Errors.{Result, ok, err, device_offline}
use iot_dashboard_flutter.Exn.{Exn, returns, throws, ◌>>=◌}
use iot_dashboard_flutter.Json.{Json, value_text}
use iot_dashboard_flutter.Automation.{SensorReading}
use iot_dashboard_flutter.Network.Mqtt.{Qos, at_most_once, at_least_once}

pub record DeviceInfo : Type 0 where
  pub id : Str
  pub name : Str
  pub type : Str
  pub protocol : Str
  pub address : Str
  pub is_connected : Bool
  pub last_seen : ℕ

pub record RegisterDeviceRequest : Type 0 where
  pub id : Str
  pub name : Str
  pub type : Str
  pub protocol : Str
  pub address : Str

pub record DeviceFilter : Type 0 where
  pub type : Str
  pub online_only : Bool

-- `IDeviceRepository`
pub record DeviceRepository (R : Type 0) : Type 0 where
  pub get_by_id : Str → R → Result DeviceInfo
  pub get_all : R → Result (List DeviceInfo)
  pub add : DeviceInfo → R → R × Result (Unit {0})
  pub update : DeviceInfo → R → R × Result (Unit {0})
  pub remove : Str → R → R × Result (Unit {0})

-- `IMqttClient`, as far as the manager uses it.
pub record Mqtt (M : Type 0) : Type 0 where
  pub connected : M → Bool
  pub subscribe : Str → Qos → M → M × Result (Unit {0})
  pub unsubscribe : Str → M → M × Result (Unit {0})
  pub publish : Str → Str → Qos → Bool → M → M × Result (Unit {0})

-- `get< double >()`, and 0.0.
pub record Numbers (json : Json) : Type 1 where
  pub Number : Type 0
  pub zero_number : Number
  pub get_number : json.Value → Exn Number

pub record DeviceManager (R M C D : Type 0) : Type 0 where
  pub repository : R
  pub mqtt : M
  pub status_callback : Option C
  pub sensor_callback : Option D

pub data Notice (N C D : Type 0) : Type 0 where
  status_notice : C → Str → Bool → Notice N C D
  reading_notice : D → SensorReading N → Notice N C D

unfoldable pub topic_of : Str → Str → Str
topic_of device_id subtopic = str "devices/" ++ (device_id ++ b'/' ∷ subtopic)

unfoldable pub build_command_topic : Str → Str
unfolding topic_of
build_command_topic device_id = topic_of device_id (str "commands")

module _ {M : Type 0} (client : Mqtt M) where
  -- The three calls of Subscribe, whose results are ignored.
  unfoldable pub subscribe_device : Str → M → M
  unfolding topic_of
  subscribe_device id m =
      let m₁ = (client.subscribe (topic_of id (str "status")) at_least_once m).0 in
      let m₂ = (client.subscribe (topic_of id (str "sensors")) at_least_once m₁).0 in
      (client.subscribe (topic_of id (str "heartbeat")) at_most_once m₂).0

  unfoldable pub unsubscribe_device : Str → M → M
  unfolding topic_of
  unsubscribe_device id m =
      let m₁ = (client.unsubscribe (topic_of id (str "status")) m).0 in
      let m₂ = (client.unsubscribe (topic_of id (str "sensors")) m₁).0 in
      (client.unsubscribe (topic_of id (str "heartbeat")) m₂).0

  unfoldable pub subscribe_devices : List DeviceInfo → M → M
  unfolding subscribe_device
  subscribe_devices [] m = m
  subscribe_devices (d ∷ ds) m = subscribe_devices ds (subscribe_device d.id m)

-- The two calls of `std::erase_if`.
unfoldable pub apply_filter : DeviceFilter → List DeviceInfo → List DeviceInfo
apply_filter filter devices =
    let of_type =
      if not (is_empty filter.type)
      then keep_if (λ d. d.type == filter.type) devices
      else devices in
    if filter.online_only then keep_if (λ d. d.is_connected) of_type else of_type

module _ {R M C D : Type 0} (store : DeviceRepository R) (client : Mqtt M) where
  unfoldable pub register :
      ℕ → RegisterDeviceRequest → DeviceManager R M C D → DeviceManager R M C D × Result DeviceInfo
  unfolding subscribe_device
  register now req s =
      let device : DeviceInfo = record {
        id = req.id;
        name = req.name;
        type = req.type;
        protocol = req.protocol;
        address = req.address;
        is_connected = false;
        last_seen = now;
      } in
      let added = (store.add device s.repository).0 in
      elim (store.add device s.repository).1 [
        | err e ↦ (record s { repository = added }, err e)
        | ok _ ↦ (
          record s {
            repository = added;
            mqtt =
                (if client.connected s.mqtt then subscribe_device client req.id s.mqtt else s.mqtt);
          },
          ok device,
        )
      ]

  unfoldable pub unregister :
      Str → DeviceManager R M C D → DeviceManager R M C D × Result (Unit {0})
  unfolding unsubscribe_device
  unregister device_id s = (
    record s {
      mqtt =
          (if client.connected s.mqtt then unsubscribe_device client device_id s.mqtt else s.mqtt);
      repository = (store.remove device_id s.repository).0;
    },
    (store.remove device_id s.repository).1,
  )

  unfoldable pub get : Str → DeviceManager R M C D → Result DeviceInfo
  get device_id s = store.get_by_id device_id s.repository

  unfoldable pub list : DeviceFilter → DeviceManager R M C D → Result (List DeviceInfo)
  unfolding apply_filter
  list filter s = elim (store.get_all s.repository) [
    | err e ↦ err e
    | ok devices ↦ ok (apply_filter filter devices)
  ]

  unfoldable pub subscribe_all : DeviceManager R M C D → DeviceManager R M C D × Result (Unit {0})
  unfolding subscribe_devices
  subscribe_all s = elim (store.get_all s.repository) [
    | err e ↦ (s, err e)
    | ok devices ↦ (record s { mqtt = subscribe_devices client devices s.mqtt }, ok tt)
  ]

  unfoldable pub on_device_status : C → DeviceManager R M C D → DeviceManager R M C D
  on_device_status cb s = record s { status_callback = some cb }

  unfoldable pub on_sensor_reading : D → DeviceManager R M C D → DeviceManager R M C D
  on_sensor_reading cb s = record s { sensor_callback = some cb }
