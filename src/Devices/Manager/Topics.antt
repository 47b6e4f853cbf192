-- ===== src/Devices/Manager/Topics.antt =====
-- How a message's topic is read.
use iot_dashboard_flutter.Common.{
  ℕ, str_instance, str_beq, nat_eq, eq_self, drop, [], ◌∷◌, ◌++◌, none, some, Str, str, length, All,
  ◌≡◌, ◌≢◌, refl, arith, take-append,
}
use iot_dashboard_flutter.Common.Search.{rfind_byte, starts_with-append, drop-append-cons}
use iot_dashboard_flutter.Json.{Json}
use iot_dashboard_flutter.Devices.Manager.{DeviceRepository, Mqtt, Numbers, DeviceManager, topic_of}
use iot_dashboard_flutter.Devices.Manager.Messages.{route, handle_mqtt_message}

rfind_byte-none : (c : ℕ) (s : Str) → All (λ a. a ≢ c) s → rfind_byte c s ≡ none
unfolding rfind_byte
rfind_byte-none c [] h = refl
rfind_byte-none c (a ∷ s) h = ground (arith, rfind_byte-none c s h.1, h.0)

rfind_byte-append :
    (c : ℕ) (s rest : Str) → All (λ a. a ≢ c) rest → rfind_byte c (s ++ c ∷ rest) ≡ some (length s)
unfolding rfind_byte
rfind_byte-append c [] rest h = rw (rfind_byte-none c rest h, eq_self c)
rfind_byte-append c (a ∷ s) rest h = rw (rfind_byte-append c s rest h)

prefix_lem : (t : Str) → drop 8 (str "devices/" ++ t) ≡ t
unfolding str
prefix_lem t = refl

module _ {R M C D : Type 0} (store : DeviceRepository R) (client : Mqtt M) (json : Json)
    (numbers : Numbers json) where
  -- A message on the topic of a device and a subtopic without a slash is handled for that device and
  -- subtopic, whatever bytes the device's id has, slashes included.
  pub handle_mqtt_message-topic_of :
      (now : ℕ) (device_id subtopic payload : Str) (s : DeviceManager R M C D)
      → All (λ c. c ≢ b'/') subtopic
      → handle_mqtt_message store client json numbers now (topic_of device_id subtopic) payload s
        ≡ route store client json numbers now device_id subtopic payload s
  unfolding handle_mqtt_message topic_of str_beq str
  handle_mqtt_message-topic_of now device_id subtopic payload s h =
      let rest : Str = device_id ++ b'/' ∷ subtopic in
      rw (
        starts_with-append (str "devices/") rest,
        prefix_lem rest,
        rfind_byte-append b'/' device_id subtopic h,
        take-append device_id (b'/' ∷ subtopic),
        drop-append-cons device_id b'/' subtopic,
      )
