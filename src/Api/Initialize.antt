-- ===== src/Api/Initialize.antt =====
-- src/api/application.cpp (Initialize), and the opening of the database in
-- src/database/sqlite_connection.cpp.
pub mod Admin
use iot_dashboard_flutter.Common.{ℕ, false, List, [], Option, none, some, Str, str}
use iot_dashboard_flutter.Errors.{Result, ok, err, database_error}
use iot_dashboard_flutter.Exn.{Exn, returns, throws}
use iot_dashboard_flutter.Security.Auth.{new_service}
use iot_dashboard_flutter.Http.Server.{HttpServer}
use iot_dashboard_flutter.Database.Migrations.{Sqlite, migrate}
use iot_dashboard_flutter.Database.Schema.{get_migrations}
use iot_dashboard_flutter.Devices.Heartbeat.{HeartbeatMonitor, new_monitor, set_timeout_callback}
use iot_dashboard_flutter.Devices.Manager.{DeviceManager, on_device_status, on_sensor_reading}
use iot_dashboard_flutter.Network.PubSub.{WsServer, new_server}
use iot_dashboard_flutter.Api.Config.{
  AppConfig, MqttClientConfig, WsServerConfig, security_config, mqtt_config, http_config, ws_config,
}
use iot_dashboard_flutter.Api.Controllers.Status.{new_metrics}
use iot_dashboard_flutter.Api.Lifecycle.{Application}
use iot_dashboard_flutter.Api.Server.{Parts, Outside, ServerState, app_router}
use iot_dashboard_flutter.Api.Wiring.{seed_admin_user}

-- `sqlite3_open_v2`, whose handle is `none` where it reports an error, and `sqlite3_exec`.
pub record SqliteLibrary (D : Type 0) : Type 0 where
  pub open_v2 : Str → Option D
  pub exec : Str → D → D

-- The constructor of SqliteConnection; the results of the two pragmas are not read.
unfoldable pub open_connection : {D : Type 0} → SqliteLibrary D → Str → Exn D
open_connection library path = elim (library.open_v2 path) [
  | none ↦ throws
  | some db ↦ returns (
      library.exec (str "PRAGMA foreign_keys=ON;")
        (library.exec (str "PRAGMA journal_mode=WAL;") db))
]

module _ (parts : Parts) where
  open parts use {
    crypto, json, Number, Repository, store, Client, client, StatusCallback, SensorCallback, Table,
    Session,
  }

  -- What the constructors of the parts give, on an open database `D`: the two repositories, the
  -- client, with and without the manager as the receiver of its messages; the closures that are set
  -- as callbacks, where `H` is the type of that of the monitor.
  pub record Boot (D H : Type 0) : Type 0 where
    pub library : SqliteLibrary D
    pub sqlite : Sqlite D
    pub device_repository : D → Repository
    pub sensor_repository : D → Table
    pub new_client : MqttClientConfig → Client
    pub install_handler : Client → Client
    pub status_closure : StatusCallback
    pub sensor_closure : SensorCallback
    pub timeout_closure : H

  pub record Initialized (H : Type 0) : Type 0 where
    pub server : ServerState parts
    pub monitor : HeartbeatMonitor H
    pub http_server : HttpServer (ServerState parts)
    pub ws_config : WsServerConfig

  module _ {D H : Type 0} (boot : Boot D H) where
    -- The constructor of DeviceManager, and WireDeviceCallbacks.
    unfoldable pub new_manager :
        AppConfig → D → DeviceManager Repository Client StatusCallback SensorCallback
    new_manager config db = on_sensor_reading store client boot.sensor_closure (
        on_device_status store client boot.status_closure (record {
          repository = boot.device_repository db;
          mqtt = boot.install_handler (boot.new_client (mqtt_config config));
          status_callback = none;
          sensor_callback = none;
        }))

    -- Initialize, behind the migrations. `salt` is what `RAND_bytes` wrote for the first user.
    unfoldable pub make_parts : AppConfig → Option (List ℕ) → Outside → D → Initialized H
    unfolding new_manager
    make_parts config salt outside db = record {
      server = record {
        auth_service = seed_admin_user crypto json salt (new_service (security_config config));
        device_manager = new_manager config db;
        rule_repository = [];
        sensor_repo = boot.sensor_repository db;
        ws_server = new_server;
        metrics_controller = new_metrics outside.steady;
        health_start_time = outside.steady;
        outside = outside;
      };
      monitor =
          set_timeout_callback boot.timeout_closure (new_monitor config.heartbeat_poll_seconds);
      http_server = record {
        config = http_config config;
        router = app_router parts;
        threads = 0;
        running = false;
        ioc_stopped = false;
      };
      ws_config = ws_config config;
    }

    -- The database is what is left of it, where it was opened; `clock` is when a version is recorded.
    unfoldable pub initialize :
        AppConfig → (ℕ → ℕ) → Option (List ℕ) → Outside → Option D × Result (Initialized H)
    unfolding make_parts
    initialize config clock salt outside = elim (open_connection boot.library config.db_path) [
      | throws ↦ (none, err database_error)
      | returns db ↦
          let migrated = migrate boot.sqlite clock get_migrations db in
          elim migrated.1 [
            | err e ↦ (some migrated.0, err e)
            | ok u ↦ (some migrated.0, ok (make_parts config salt outside migrated.0))
          ]
    ]

    -- The application that Start gets.
    unfoldable pub application :
        Initialized H
        → Application Repository Client StatusCallback SensorCallback H (ServerState parts) Session
    application made = record {
      manager = made.server.device_manager;
      monitor = made.monitor;
      ws_server = made.server.ws_server;
      http_server = made.http_server;
      running = false;
    }
