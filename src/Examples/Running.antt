-- ===== src/Examples/Running.antt =====
-- An application whose HTTP server cannot listen at first, and a command line.
use iot_dashboard_flutter.Common.{
  ℕ, str_beq, true, false, ◌||◌, List, [], ◌∷◌, none, Str, str, ◌≡◌, refl, arith,
}
use iot_dashboard_flutter.Errors.{ok, err, device_not_found, network_error}
use iot_dashboard_flutter.Exn.{returns}
use iot_dashboard_flutter.Devices.Manager.{DeviceRepository, Mqtt}
use iot_dashboard_flutter.Http.Server
use iot_dashboard_flutter.Network.PubSub.Running as WsRunning
use iot_dashboard_flutter.Network.Acceptor.{Acceptor, listen}
use iot_dashboard_flutter.Api.Lifecycle.{Link, Application, start, stop, start_http}
use iot_dashboard_flutter.Api.Lifecycle.Steps.{
  NoneRuns, Reach, here, starts, stops, Reach-running, stop-start_failed,
}
use iot_dashboard_flutter.Common.Decimal.{to_string}
use iot_dashboard_flutter.Args.{Args, parse_args, default_args, parse_from, set_flag, set_value}
use iot_dashboard_flutter.Args.Laws.{HavePorts, render, parse_args-ports, parse_args-render}

abbrev store : DeviceRepository ℕ
store = record {
  get_by_id = λ id r. err device_not_found;
  get_all = λ r. ok [];
  add = λ d r. (r, ok tt);
  update = λ d r. (r, ok tt);
  remove = λ id r. (r, ok tt);
}

abbrev client : Mqtt ℕ
client = record {
  connected = λ m. true;
  subscribe = λ topic qos m. (m, ok tt);
  unsubscribe = λ topic m. (m, ok tt);
  publish = λ topic payload qos retain m. (m, ok tt);
}

abbrev link : Link ℕ
link = record { connect = λ m. (m, ok tt); disconnect = λ m. (m, ok tt) }

abbrev fresh : Application ℕ ℕ ℕ ℕ ℕ ℕ ℕ
fresh = record {
  manager = record { repository = 0; mqtt = 0; status_callback = none; sensor_callback = none };
  monitor = record { poll_interval = 30; devices = []; timeout_callback = none; running = false };
  ws_server = record {
    running = false;
    next_id = 1;
    sessions = [];
    topics = [];
    ioc_stopped = false;
  };
  http_server = record {
    config = record { host = []; port = 8080; thread_count = 4; enable_cors = true };
    router = record { routes = []; middlewares = [] };
    threads = 0;
    running = false;
    ioc_stopped = false;
  };
  running = false;
}

abbrev free : Acceptor
free = record { open_error = false; bind_error = false; listen_error = false }

abbrev taken : Acceptor
taken = record { open_error = false; bind_error = true; listen_error = false }

abbrev started : Application ℕ ℕ ℕ ℕ ℕ ℕ ℕ
started = (start store client link free free fresh).0

started-runs : started.running ≡ true
unfolding start start_http listen Server.start WsRunning.start
started-runs = refl

abbrev restarted : Application ℕ ℕ ℕ ℕ ℕ ℕ ℕ
restarted = (start store client link free free (stop link started).0).0

restarted-runs : restarted.running ≡ true
unfolding start stop start_http listen Server.start WsRunning.start Server.stop WsRunning.stop
restarted-runs = refl

restarted-Reach : Reach store client link fresh true restarted
restarted-Reach = starts (stops (starts here free free refl) refl stopped-running) free free refl
  where
    stopped-running : true ≡ (false || started.running)
    stopped-running = rw started-runs

-- Started, stopped and started again.
Reach-running_example :
    (restarted.monitor.running ≡ true)
    × (Server.serves restarted.http_server ≡ false)
    × (WsRunning.serves restarted.ws_server ≡ false)
    × NoneRuns (stop link restarted).0
Reach-running_example =
    Reach-running store client link fresh restarted true refl refl refl restarted-Reach
      restarted-runs

refused : (start store client link free taken fresh).1 ≡ err network_error
unfolding start start_http listen Server.start WsRunning.start
refused = refl

stop-start_failed_example :
    let failed = (start store client link free taken fresh).0 in
    (failed.monitor.running ≡ true) × (stop link failed ≡ (failed, []))
stop-start_failed_example =
    stop-start_failed store client link free taken fresh network_error refl refused

abbrev line : List Str
line = str "iot" ∷ str "--serve" ∷ []

abbrev serving : Args
serving = record default_args { serve = true }

parsed : parse_args line ≡ returns serving
unfolding parse_args parse_from set_flag set_value default_args str_beq str
parsed = refl

ports_fit : HavePorts serving
unfolding default_args HavePorts
ports_fit = (omega arith, omega arith)

parse_args-render_example : parse_args (str "iot" ∷ render serving) ≡ returns serving
parse_args-render_example = parse_args-render (str "iot") serving ports_fit

parse_args-ports_example :
    parse_args (str "iot" ∷ str "--port" ∷ to_string 65616 ∷ str "--ws-port" ∷ to_string 8081 ∷ [])
    ≡ returns (record default_args { http_port = 80; ws_port = 8081 })
parse_args-ports_example = parse_args-ports (str "iot") 65616 8081 (omega arith) (omega arith)
