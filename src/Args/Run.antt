-- ===== src/Args/Run.antt =====
-- src/main.cpp: the configuration that the arguments give, and what `main` returns. The signal
-- handlers and the wait until the application has stopped are not modelled.
use iot_dashboard_flutter.Common.{ℕ, not, if◌then◌else◌, List, Str}
use iot_dashboard_flutter.Errors.{Result, ok, err}
use iot_dashboard_flutter.Exn.{Exn, returns, ◌>>=◌}
use iot_dashboard_flutter.Api.Config.{AppConfig, default_config}
use iot_dashboard_flutter.Args.{Args, parse_args}

unfoldable config_of : Args → AppConfig
config_of args = record default_config {
  http_port = args.http_port;
  ws_port = args.ws_port;
  db_path = args.db_path;
  mqtt_broker = args.mqtt_broker;
  log_level = args.log_level;
}

-- `initialize` and `start` are what Initialize and Start of the application return.
unfoldable exit_code : (AppConfig → Result (Unit {0})) → (AppConfig → Result (Unit {0})) → Args → ℕ
unfolding config_of
exit_code initialize start args = if args.help then 0 else elim (initialize (config_of args)) [
  | err e ↦ 1
  | ok u ↦ if not args.serve then 0 else elim (start (config_of args)) [ err e ↦ 1 | ok u ↦ 0 ]
]

unfoldable main :
    (AppConfig → Result (Unit {0})) → (AppConfig → Result (Unit {0})) → List Str → Exn ℕ
unfolding exit_code
main initialize start arguments =
    parse_args arguments >>= λ args. returns (exit_code initialize start args)
