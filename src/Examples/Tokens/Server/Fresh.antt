-- ===== src/Examples/Tokens/Server/Fresh.antt =====
-- A fresh application, over a database that takes everything.
use iot_dashboard_flutter.Common.{ℕ, ◌%◌, List, [], length, replicate, none, some, Str, str}
use iot_dashboard_flutter.Errors.{ok}
use iot_dashboard_flutter.Http.{HttpRequest}
use iot_dashboard_flutter.Api.Config.{default_config}
use iot_dashboard_flutter.Api.Initialize.{Boot, Initialized, make_parts}
use iot_dashboard_flutter.Api.Server.{Parts}
use iot_dashboard_flutter.Examples
use iot_dashboard_flutter.Examples.Tokens.{salt}
use iot_dashboard_flutter.Examples.Tokens.Server.{
  credentials, choose_json, parts_over, outside, request,
}

-- An empty body holds the first login, and every other one the second.
abbrev parts : Parts
parts =
    parts_over
      (choose_json (credentials (str "admin") (str "admin123")) (credentials (str "ann") (str "x")))

abbrev boot : Boot parts (Unit {0}) (Unit {0})
boot = record {
  library = record { open_v2 = λ path. some tt; exec = λ text d. d };
  sqlite = record {
    execute = λ s d. (d, ok tt);
    select_max_version = λ d. none;
    insert_version = λ v now d. d;
  };
  device_repository = λ d. tt;
  sensor_repository = λ d. tt;
  new_client = λ config. tt;
  install_handler = λ m. m;
  status_closure = tt;
  sensor_closure = tt;
  timeout_closure = tt;
}

abbrev made : Initialized parts (Unit {0})
made = make_parts parts boot default_config (some salt) outside tt

admin_body : parts.json.Value
unfolding choose_json Examples.toy_json
admin_body = credentials (str "admin") (str "admin123")

ann_body : parts.json.Value
unfolding choose_json Examples.toy_json
ann_body = credentials (str "ann") (str "x")

abbrev login_request : Str → HttpRequest
login_request body = record (request (str "/auth/login") []) { body = body }

abbrev key : List ℕ
key = replicate 32 (length (str "admin123") % 256)
