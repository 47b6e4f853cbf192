-- ===== src/Examples/Events.antt =====
-- Heartbeats, rules and subscriptions.
use iot_dashboard_flutter.Common.{
  ℕ, ◌≡◌, refl, true, false, not, ◌&&◌, nat_eq, str_instance, str_beq, [], ◌∷◌, none, some, str,
  ◌↔◌,
}
use iot_dashboard_flutter.Common.Any.{Any}
use iot_dashboard_flutter.Common.Unique.{IsUnique}
use iot_dashboard_flutter.Common.Map.{lookup, contains}
use iot_dashboard_flutter.Errors.{ok}
use iot_dashboard_flutter.Devices.Heartbeat.{
  DeviceRecord, HeartbeatMonitor, is_due, at_least, seconds_between, polled,
}
use iot_dashboard_flutter.Devices.Heartbeat.Once.{
  run, reports, is_silent, is_news, reports-run_once,
}
use iot_dashboard_flutter.Automation.{
  Double, compare, evaluate, evaluate_all, greater_than, Condition, Action, SensorReading,
  RuleRepository,
}
use iot_dashboard_flutter.Automation.Repository
use iot_dashboard_flutter.Automation.Repository.{remove}
use iot_dashboard_flutter.Automation.Engine.{evaluate_rules, disable_rule}
use iot_dashboard_flutter.Automation.Engine.Firing.{Fires, evaluate_rules-Fires}
use iot_dashboard_flutter.Automation.Engine.Disabling.{IsKeyed, evaluate_rules-disable_rule}
use iot_dashboard_flutter.Network.PubSub.{WsServer, subscribe, on_session_disconnected}
use iot_dashboard_flutter.Network.PubSub.Delivery.{
  is_subscribed, is_subscribed-on_session_disconnected,
}
use iot_dashboard_flutter.Common.{ltb, leb, nat_beq, arith}

abbrev lamp : DeviceRecord
lamp = record { timeout = 60; last_seen = 0; timed_out = false }

-- A monitor whose callback is numbered 1, with one device.
abbrev monitor : HeartbeatMonitor ℕ
monitor = record {
  poll_interval = 30;
  devices = (str "lamp", lamp) ∷ [];
  timeout_callback = some 1;
  running = true;
}

due : is_due 90000000000 lamp ≡ true
unfolding is_due at_least seconds_between
due = refl

found : lookup (str "lamp") monitor.devices ≡ some lamp
unfolding lookup str str_beq
found = refl

reports-run_once_example :
    reports (str "lamp") (run ((90000000000, polled) ∷ (120000000000, polled) ∷ []) monitor).1 ≡ 1
unfolding IsUnique contains is_silent is_news
reports-run_once_example =
    reports-run_once 90000000000 (str "lamp") ((120000000000, polled) ∷ []) monitor lamp 1
      (refl, tt) found due refl refl refl

-- Whole numbers in the place of `double`.
abbrev pub whole : Double
whole = record {
  Number = ℕ;
  less = ltb;
  equal = nat_beq;
  less_or_equal = leb;
  less_or_equal_iff = λ a b. ground arith;
  less_total = λ a b ha hb. ground arith;
  unordered = λ a b h. ground arith;
  unordered_right = λ a b h. ground arith;
  equal_nan = λ a b h. ground arith;
  equal_nan_right = λ a b h. ground arith;
  equal_sym = λ a b. ground arith;
}

abbrev pub hot : Condition ℕ
hot = record { sensor_type = str "temperature"; op = greater_than; threshold = 30 }

abbrev pub reading : SensorReading ℕ
reading = record {
  device_id = str "d1";
  sensor = str "temperature";
  value = 31;
  unit = str "C";
  timestamp = 0;
  quality = none;
}

abbrev fan_on : Action ℕ
fan_on = record { device_id = str "fan"; command = str "on"; parameters = 0 }

abbrev rules : RuleRepository ℕ ℕ
rules =
    (
      str "r1",
      record {
        id = str "r1";
        name = str "cool";
        enabled = true;
        conditions = hot ∷ [];
        actions = fan_on ∷ [];
        created_by = str "ann";
      },
    )
    ∷ []

fired : evaluate_rules whole rules reading ≡ ok (fan_on ∷ [])
unfolding evaluate_rules evaluate_all str str_beq compare evaluate Repository.get_enabled
fired = refl

evaluate_rules-Fires_example :
    Any (λ a. a.device_id ≡ str "fan") (fan_on ∷ [])
    ↔ Any (Fires whole (λ a. a.device_id ≡ str "fan") reading) rules
evaluate_rules-Fires_example =
    evaluate_rules-Fires whole (λ a. a.device_id ≡ str "fan") rules reading (fan_on ∷ []) fired

evaluate_rules-disable_rule_example :
    evaluate_rules whole (disable_rule (str "r1") rules).0 reading
    ≡ evaluate_rules whole (remove (str "r1") rules).0 reading
unfolding IsKeyed contains
evaluate_rules-disable_rule_example =
    evaluate_rules-disable_rule whole (str "r1") rules reading (refl, refl, tt)

abbrev server : WsServer ℕ
server = record {
  running = true;
  next_id = 3;
  sessions = (1, 10) ∷ (2, 20) ∷ [];
  topics = [];
  ioc_stopped = false;
}

is_subscribed-on_session_disconnected_example :
    is_subscribed 1 (str "sensors") (on_session_disconnected 1 (subscribe 1 (str "sensors") server))
    ≡ (not (nat_beq 1 1) && is_subscribed 1 (str "sensors") (subscribe 1 (str "sensors") server))
is_subscribed-on_session_disconnected_example =
    is_subscribed-on_session_disconnected 1 1 (str "sensors") (subscribe 1 (str "sensors") server)
