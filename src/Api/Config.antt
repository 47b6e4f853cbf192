-- ===== src/Api/Config.antt =====
-- src/api/application.hpp (AppConfig) and the configurations of the parts, with their defaults, as
-- src/api/application.cpp fills them in.
use iot_dashboard_flutter.Common.{ℕ, ◌*◌, Bool, true, false, [], Str, str}
use iot_dashboard_flutter.Security.Auth.{SecurityConfig}
use iot_dashboard_flutter.Http.Server.{HttpServerConfig}

pub record AppConfig : Type 0 where
  pub http_host : Str
  pub http_port : ℕ
  pub http_threads : ℕ
  pub ws_port : ℕ
  pub ws_threads : ℕ
  pub db_path : Str
  pub mqtt_broker : Str
  pub mqtt_client_id : Str
  pub jwt_secret : Str
  pub pbkdf2_iterations : ℕ
  pub heartbeat_timeout_seconds : ℕ
  pub heartbeat_poll_seconds : ℕ
  pub log_level : Str

unfoldable pub default_config : AppConfig
default_config = record {
  http_host = str "0.0.0.0";
  http_port = 8080;
  http_threads = 4;
  ws_port = 8081;
  ws_threads = 2;
  db_path = str "./data/iot.db";
  mqtt_broker = str "tcp://localhost:1883";
  mqtt_client_id = str "iot-dashboard";
  jwt_secret = str "change-in-production";
  pbkdf2_iterations = 600000;
  heartbeat_timeout_seconds = 300;
  heartbeat_poll_seconds = 30;
  log_level = str "info";
}

-- src/network/mqtt/mqtt_client.hpp
pub record MqttClientConfig : Type 0 where
  pub broker_url : Str
  pub client_id : Str
  pub username : Str
  pub password : Str
  pub keep_alive_seconds : ℕ
  pub clean_session : Bool
  pub connect_timeout_seconds : ℕ
  pub max_reconnect_delay_seconds : ℕ
  pub enable_tls : Bool
  pub tls_ca_file : Str

-- src/network/websocket/ws_server.hpp
pub record WsServerConfig : Type 0 where
  pub host : Str
  pub port : ℕ
  pub thread_count : ℕ
  pub heartbeat_interval_seconds : ℕ
  pub max_message_bytes : ℕ

-- `secCfg`, in seconds
unfoldable pub security_config : AppConfig → SecurityConfig
security_config config = record {
  jwt_secret = config.jwt_secret;
  access_token_expiry = 3600;
  refresh_token_expiry = 86400 * 30;
  pbkdf2_iterations = config.pbkdf2_iterations;
}

-- `mqttCfg`
unfoldable pub mqtt_config : AppConfig → MqttClientConfig
mqtt_config config = record {
  broker_url = config.mqtt_broker;
  client_id = config.mqtt_client_id;
  username = [];
  password = [];
  keep_alive_seconds = 60;
  clean_session = false;
  connect_timeout_seconds = 10;
  max_reconnect_delay_seconds = 30;
  enable_tls = false;
  tls_ca_file = [];
}

-- `httpCfg`
unfoldable pub http_config : AppConfig → HttpServerConfig
http_config config = record {
  host = config.http_host;
  port = config.http_port;
  thread_count = config.http_threads;
  enable_cors = true;
}

-- `wsCfg`
unfoldable pub ws_config : AppConfig → WsServerConfig
ws_config config = record {
  host = str "0.0.0.0";
  port = config.ws_port;
  thread_count = config.ws_threads;
  heartbeat_interval_seconds = 30;
  max_message_bytes = 65536;
}
