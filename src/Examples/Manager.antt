-- ===== src/Examples/Manager.antt =====
-- A store of one device, a broker that takes everything, and the requests of a user.
use iot_dashboard_flutter.Common.{
  ℕ, ◌≡◌, ◌≢◌, refl, ap, subst, true, false, ◌==◌, str_instance, eq_self, is_empty, ◌||◌,
  if◌then◌else◌, List, [], ◌∷◌, ◌++◌, All, none, some, Str, str, str_beq, arith,
}
use iot_dashboard_flutter.Common.Map.{lookup}
use iot_dashboard_flutter.Errors.{Result, ok, err, device_not_found}
use iot_dashboard_flutter.Exn.{returns}
use iot_dashboard_flutter.Json.{Json, value_text, value_json}
use iot_dashboard_flutter.Http.{HttpRequest, get, new_response, get_header, tolower, error_response}
use iot_dashboard_flutter.Security.Access.{read}
use iot_dashboard_flutter.Security.Auth.{AuthenticationService}
use iot_dashboard_flutter.Devices.Manager.{
  DeviceInfo, DeviceRepository, Mqtt, Numbers, DeviceManager, topic_of,
}
use iot_dashboard_flutter.Devices.Manager.Messages.{handle_mqtt_message}
use iot_dashboard_flutter.Devices.Manager.Commands.{IsStore}
use iot_dashboard_flutter.Api.Middleware.{AuthState, auth_middleware, is_public_path, refuse}
use iot_dashboard_flutter.Api.Controllers.Auth.{logout_handler}
use iot_dashboard_flutter.Api.Controllers.Auth.Logout.{auth_middleware-logout_handler}
use iot_dashboard_flutter.Api.Controllers.Devices.{CommandRequest, read_command, command_handler}
use iot_dashboard_flutter.Api.Controllers.Devices.Replies.{command_handler-offline}
use iot_dashboard_flutter.Examples

one_get : Str → DeviceInfo → Result DeviceInfo
one_get device_id r = if r.id == device_id then ok r else err device_not_found

one_update : DeviceInfo → DeviceInfo → DeviceInfo × Result (Unit {0})
one_update d r = if r.id == d.id then (d, ok tt) else (r, err device_not_found)

abbrev store : DeviceRepository DeviceInfo
store = record {
  get_by_id = one_get;
  get_all = λ r. ok (r ∷ []);
  add = λ d r. (r, ok tt);
  update = one_update;
  remove = λ device_id r. (r, err device_not_found);
}

one_get-id :
    (r : DeviceInfo) (device_id : Str) (d : DeviceInfo)
    → one_get device_id r ≡ ok d
    → (r.id == device_id) ≡ true
unfolding one_get
one_get-id r device_id d h = ground (arith, h)

device_or : DeviceInfo → Result DeviceInfo → DeviceInfo
device_or default (err e) = default
device_or default (ok d) = d

one_same :
    (r : DeviceInfo) (device_id : Str) (d : DeviceInfo)
    → one_get device_id r ≡ ok d
    → d.id ≡ device_id
unfolding one_get device_or
one_same r device_id d h =
    let same = one_get-id r device_id d h in
    let whole : ok r ≡ ok d = rw (same) at h in
    subst (λ x. x.id ≡ device_id) (ap (device_or r) whole)
      ((str_instance.beq_iff r.id device_id).0 same)

one_keeps :
    (r d changed : DeviceInfo)
    → one_get changed.id r ≡ ok d
    → (kept : DeviceInfo) × (one_get changed.id (one_update changed r).0 ≡ ok kept)
      × (kept.is_connected ≡ changed.is_connected)
unfolding one_get one_update
one_keeps r d changed h =
    (changed, rw (one_get-id r changed.id d h, one_update) (rw (eq_self changed.id)), refl)

abbrev AnyKey : Str → Type 0
AnyKey device_id = Unit {0}

store-IsStore : IsStore AnyKey store
store-IsStore = record {
  same_id = λ r device_id d key. one_same r device_id d;
  keeps_connection = one_keeps;
}

abbrev client : Mqtt (List (Str × Str))
client = record {
  connected = λ m. true;
  subscribe = λ topic qos m. (m, ok tt);
  unsubscribe = λ topic m. (m, ok tt);
  publish = λ topic payload qos retain m. ((topic, payload) ∷ m, ok tt);
}

-- One value that serves as a status and as a request.
known : Examples.Value
known = Examples.object (
    Examples.from_pairs (
      (str "status", Examples.text (str "offline"))
      ∷ (str "device_id", Examples.text (str "fan"))
      ∷ (str "command", Examples.text (str "on"))
      ∷ []))

abbrev json : Json
json = Examples.toy_json known

known_value : json.Value
unfolding Examples.toy_json
known_value = known

numbers : Numbers json
numbers = record { Number = ℕ; zero_number = 0; get_number = λ v. returns 0 }

abbrev fan : DeviceInfo
fan = record {
  id = str "fan";
  name = str "Fan";
  type = str "actuator";
  protocol = str "mqtt";
  address = [];
  is_connected = true;
  last_seen = 0;
}

abbrev manager : DeviceManager DeviceInfo (List (Str × Str)) ℕ ℕ
manager = record { repository = fan; mqtt = []; status_callback = some 1; sensor_callback = none }

no_slash : All (λ c. c ≢ b'/') (str "sensors")
unfolding str
no_slash = (
  λ e. omega arith,
  (
    λ e. omega arith,
    (
      λ e. omega arith,
      (λ e. omega arith, (λ e. omega arith, (λ e. omega arith, (λ e. omega arith, tt)))),
    ),
  ),
)

parsed : json.parse [] ≡ some known_value
unfolding Examples.toy_json known_value
parsed = refl

told : value_text json known_value (str "status") (str "offline") ≡ returns (str "offline")
unfolding value_text known known_value Examples.toy_json lookup str str_beq Examples.find_field
told = refl

found : store.get_by_id (str "fan") manager.repository ≡ ok fan
unfolding one_get
found = rw (eq_self (str "fan"))

not_online : (str "offline" == str "online") ≡ false
unfolding str str_beq
not_online = refl

abbrev after_status : DeviceManager DeviceInfo (List (Str × Str)) ℕ ℕ
after_status =
    (handle_mqtt_message store client json numbers 5 (topic_of (str "fan") (str "status")) []
      manager).0

abbrev request : HttpRequest
request = record {
  method = get;
  target = str "/devices";
  path = str "/devices";
  query = [];
  headers = (str "authorization", str "Bearer " ++ str "abc") ∷ [];
  body = [];
  http_version = 11;
}

abbrev wanted : CommandRequest
wanted = record { device_id = str "fan"; command = str "on"; params = 0 ∷ [] }

requested : read_command json known_value ≡ returns wanted
unfolding read_command value_text value_json known known_value Examples.toy_json lookup str str_beq
    Examples.find_field
requested = refl

given : (is_empty (str "fan") || is_empty (str "on")) ≡ false
unfolding str
given = refl

command_handler-offline_example :
    command_handler store client json numbers after_status request new_response ≡ (
      after_status,
      returns (error_response new_response 422 (str "DeviceOffline") (str "Device is offline")),
    )
command_handler-offline_example =
    command_handler-offline store client json numbers store-IsStore 5 [] (str "offline") manager
      known_value known_value fan request new_response wanted tt parsed told not_online found parsed
      requested given

abbrev service : AuthenticationService
service = record {
  config = record {
    jwt_secret = str "key";
    access_token_expiry = 3600;
    refresh_token_expiry = 2592000;
    pbkdf2_iterations = 100000;
  };
  users = [];
  revoked_tokens = [];
}

abbrev state : AuthState AuthenticationService
state = record { service = λ s. s; clock = λ s. 2000 }

abbrev logged_out : AuthenticationService
logged_out = (logout_handler Examples.toy_crypto json service request new_response).0

bearer : get_header request (str "authorization") ≡ str "Bearer " ++ str "abc"
unfolding get_header lookup str str_beq tolower
bearer = refl

protected : is_public_path request.path ≡ false
unfolding is_public_path str str_beq
protected = refl

auth_middleware-logout_handler_example :
    auth_middleware Examples.toy_crypto json state
      (str "devices")
      read
      logged_out
      request
      new_response
    ≡ refuse request
        (error_response new_response 401 (str "Unauthorized") (str "Invalid or expired token"))
auth_middleware-logout_handler_example =
    auth_middleware-logout_handler Examples.toy_crypto json state service logged_out request request
      new_response new_response (str "abc") (str "devices") read bearer bearer protected refl
