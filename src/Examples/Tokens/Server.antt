-- ===== src/Examples/Tokens/Server.antt =====
-- A whole application: one account, no devices and no rules. An empty body holds a given value.
mod Requests
mod Fresh
use iot_dashboard_flutter.Common.{
  ℕ, ◌+◌, ◌||◌, ◌≡◌, ◌≢◌, refl, ap, true, false, is_empty, if◌then◌else◌, List, [], ◌∷◌, ◌++◌, All,
  none, some, Str, str, str_beq, arith, str_instance,
}
use iot_dashboard_flutter.Common.Map.{lookup, insert, contains}
use iot_dashboard_flutter.Common.Sets.{has}
use iot_dashboard_flutter.Exn.{returns}
use iot_dashboard_flutter.Errors.{ok, err, device_not_found}
use iot_dashboard_flutter.Json.{Json, value_text}
use iot_dashboard_flutter.Security.Access.{operator, viewer}
use iot_dashboard_flutter.Security.Jwt
use iot_dashboard_flutter.Security.Jwt.Laws.{verify-generate}
use iot_dashboard_flutter.Security.Auth.{validate_token}
use iot_dashboard_flutter.Http.{
  HttpRequest, post, new_response, get_header, tolower, error_response,
}
use iot_dashboard_flutter.Http.Router.{dispatch}
use iot_dashboard_flutter.Automation.{AutomationRule}
use iot_dashboard_flutter.Network.PubSub.{new_server}
use iot_dashboard_flutter.Api.Middleware.{is_public_path}
use iot_dashboard_flutter.Api.Middleware.Laws.{IsAuthorized}
use iot_dashboard_flutter.Api.Server.{Parts, Outside, ServerState, auth_state, app_router}
use iot_dashboard_flutter.Api.Server.Revoked.{serve, dispatch-logout}
use iot_dashboard_flutter.Examples
use iot_dashboard_flutter.Examples.Tokens.{result_or, claims, known, service}

unfoldable choose_json : Examples.Value → Examples.Value → Json
unfolding Examples.toy_json
choose_json body other = record (Examples.toy_json other) {
  parse = λ s. if is_empty s then some body else some other;
  parse-dump = λ v e. ap some e;
}

abbrev read_json : Examples.Value → Json
read_json body = choose_json body known

abbrev parts_over : Json → Parts
parts_over json = record {
  crypto = Examples.toy_crypto;
  json = json;
  Number = Unit {0};
  numbers = record {
    number = λ x. json.boolean true;
    get_number = λ v. returns tt;
    get_number-number = λ x. refl;
  };
  doubles = record { Number = Unit {0}; zero_number = tt; get_number = λ v. returns tt };
  Repository = Unit {0};
  store = record {
    get_by_id = λ id r. err device_not_found;
    get_all = λ r. ok [];
    add = λ d r. (r, ok tt);
    update = λ d r. (r, err device_not_found);
    remove = λ id r. (r, err device_not_found);
  };
  Client = Unit {0};
  client = record {
    connected = λ m. true;
    subscribe = λ topic qos m. (m, ok tt);
    unsubscribe = λ topic m. (m, ok tt);
    publish = λ topic payload qos retain m. (m, ok tt);
  };
  StatusCallback = Unit {0};
  SensorCallback = Unit {0};
  Table = Unit {0};
  table = record {
    execute = λ s t. (t, ok tt);
    insert_row = λ row t. t;
    select = λ text params t. [];
    delete_older = λ ms t. (t, 0);
  };
  Session = Unit {0};
}

abbrev parts_with : Examples.Value → Parts
parts_with body = parts_over (read_json body)

abbrev outside : Outside
outside = record {
  clock = 2000;
  first = 1000;
  second = 1000;
  now = 0;
  steady = 0;
  moved = [];
  what = [];
}

abbrev state : (body : Examples.Value) → ServerState (parts_with body)
state body = record {
  auth_service = service;
  device_manager = record {
    repository = tt;
    mqtt = tt;
    status_callback = none;
    sensor_callback = none;
  };
  rule_repository = [];
  sensor_repo = tt;
  ws_server = record {
    running = true;
    next_id = 1;
    sessions = [];
    topics = [];
    ioc_stopped = false;
  };
  metrics_controller = record { http_requests = 0; mqtt_messages = 0; start_time = 0 };
  health_start_time = 0;
  outside = outside;
}

-- The body of a login.
credentials : Str → Str → Examples.Value
credentials username password = Examples.object (
    Examples.from_pairs
      ((str "username", Examples.text username) ∷ (str "password", Examples.text password) ∷ []))

-- A token of the account, for any body.
token_with : Examples.Value → Str
token_with body =
    result_or [] (Jwt.generate Examples.toy_crypto (read_json body) (str "key") 1000 claims 3600)

token_with-eq :
    (body : Examples.Value)
    → Jwt.generate Examples.toy_crypto (read_json body) (str "key") 1000 claims 3600
      ≡ ok (token_with body)
unfolding Jwt.generate token_with result_or
token_with-eq body = refl

writable_with :
    (body : Examples.Value)
    → (read_json body).IsWritable
        (Jwt.payload Examples.toy_crypto (read_json body) claims 1000 (1000 + 3600))
unfolding Jwt.payload Jwt.role_to_string known choose_json Examples.toy_json
writable_with body = refl

valid_with :
    (body : Examples.Value)
    → validate_token Examples.toy_crypto (read_json body) service 2000 (token_with body)
      ≡ returns (ok claims)
unfolding validate_token has
valid_with body =
    verify-generate Examples.toy_crypto (read_json body) (str "key") 1000 2000 3600 claims
      (token_with body) (writable_with body) (token_with-eq body)

-- A request to a path with a token and an empty body.
abbrev request : Str → Str → HttpRequest
request path token = record {
  method = post;
  target = path;
  path = path;
  query = [];
  headers = (str "authorization", str "Bearer " ++ token) ∷ [];
  body = [];
  http_version = 11;
}

bearer :
    (path token : Str)
    → get_header (request path token) (str "authorization") ≡ str "Bearer " ++ token
unfolding get_header lookup str str_beq tolower
bearer path token = refl

authorized :
    (body : Examples.Value) (path : Str)
    → is_public_path path ≡ false
    → IsAuthorized Examples.toy_crypto
        (read_json body)
        (auth_state (parts_with body))
        (state body)
        (request path (token_with body))
        claims
unfolding auth_state
authorized body path protected = record {
  protected = protected;
  token = token_with body;
  bearer = bearer path (token_with body);
  valid = valid_with body;
}

protected_logout : is_public_path (str "/auth/logout") ≡ false
unfolding is_public_path str str_beq
protected_logout = refl

protected_rules : is_public_path (str "/automation/rules") ≡ false
unfolding is_public_path str str_beq
protected_rules = refl

not_viewer : operator ≢ viewer
not_viewer e = cc

abbrev none_sent : Examples.Value
none_sent = Examples.boolean true

abbrev rules_request : HttpRequest
rules_request = request (str "/automation/rules") (token_with none_sent)

dispatch-logout_example :
    let parts = parts_with none_sent in
    let t : ServerState parts =
      record (serve parts
        (dispatch
          (app_router parts)
          (state none_sent)
          (request (str "/auth/logout") (token_with none_sent))
          new_response).0
        ((outside, rules_request) ∷ [])) { outside = outside } in
    dispatch (app_router parts) t rules_request new_response ≡ (
      t,
      returns
          (error_response new_response 401 (str "Unauthorized") (str "Invalid or expired token")),
    )
unfolding authorized token_with
dispatch-logout_example =
    dispatch-logout (parts_with none_sent) (state none_sent)
      (request (str "/auth/logout") (token_with none_sent)) rules_request new_response new_response
      claims (authorized none_sent (str "/auth/logout") protected_logout)
      ((outside, rules_request) ∷ []) outside not_viewer refl refl
      (bearer (str "/automation/rules") (token_with none_sent)) protected_rules
