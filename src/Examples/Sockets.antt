-- ===== src/Examples/Sockets.antt =====
-- Connections, topics and the MQTT client.
use iot_dashboard_flutter.Common.{
  ℕ, ◌+◌, ◌≤◌, ◌<◌, arith, nat_eq, str_instance, ◌≡◌, ◌↔◌, refl, true, false, is_empty, List, [],
  ◌∷◌, ◌++◌, All, map, length, ap, zero, suc, none, some, Str, str, str_beq,
}
use iot_dashboard_flutter.Common.Any.{Any}
use iot_dashboard_flutter.Common.Map.{lookup}
use iot_dashboard_flutter.Exn.{returns}
use iot_dashboard_flutter.Json.{Json, value_text}
use iot_dashboard_flutter.Automation.{Action, RuleRepository}
use iot_dashboard_flutter.Automation.Engine.Firing.{Fires}
use iot_dashboard_flutter.Network.Mqtt.{at_least_once, subscribe_call, new_client, on_connected}
use iot_dashboard_flutter.Network.Mqtt.Resume.{
  Event, connected, lost, subscribes, run, owed, on_connected-resubscribes,
}
use iot_dashboard_flutter.Network.PubSub.{WsServer, broadcast_to_topic, subscribe}
use iot_dashboard_flutter.Network.PubSub.Delivery.{is_subscribed}
use iot_dashboard_flutter.Network.PubSub.Broadcast.{broadcast_to_topic-reaches}
use iot_dashboard_flutter.Network.Session.{Buffer, send, new_session}
use iot_dashboard_flutter.Network.Session.Wire.{
  Connection, fresh, sends, starts, Reach, here, next, send_step, start_step, in_sizes, in_count,
}
use iot_dashboard_flutter.Network.Session.Order.{Reach-in_order}
use iot_dashboard_flutter.Network.Session.Delivery.{IsDelivered, Reach-delivers}
use iot_dashboard_flutter.Api.Wiring.{on_ws_message, Command, forward_reading}
use iot_dashboard_flutter.Api.Wiring.Sockets.{Asks, Watches, described, forward_reading-Fires}
use iot_dashboard_flutter.Api.Wiring.Subscriptions
use iot_dashboard_flutter.Examples.Events.{whole, hot, reading}
use iot_dashboard_flutter.Examples

-- Two messages are sent before the first write starts.
abbrev queued : Connection
queued = sends (str "b") (sends (str "a") (fresh 1))

abbrev written_one : Connection
written_one = starts queued

is_called : 0 < queued.pending
unfolding sends fresh send new_session
is_called = omega arith

reached : Reach (fresh 1) written_one
reached =
    next
      (next (next here (send_step (str "a") (fresh 1)))
        (send_step (str "b") (sends (str "a") (fresh 1))))
      (start_step queued is_called)

Reach-in_order_example :
    (written_one.accepted ≡ written_one.handed ++ written_one.session.write_queue)
    × (written_one.failed ≡ false
        → map length written_one.handed
          ≡ map length written_one.written ++ in_sizes written_one.in_flight)
    × written_one.pending + in_count written_one.in_flight ≤ 1
Reach-in_order_example = Reach-in_order 1 written_one reached

-- Bytes other than the message's.
blanks : ℕ → Str
blanks zero = []
blanks (suc n) = b' ' ∷ blanks n

length-blanks : (n : ℕ) → length (blanks n) ≡ n
unfolding blanks
length-blanks zero = refl
length-blanks (suc n) = ap suc (length-blanks n)

overwritten : Buffer → Str
unfolding blanks
overwritten buffer = blanks buffer.size

overwritten-size : (buffer : Buffer) → length (overwritten buffer) ≡ buffer.size
unfolding overwritten blanks
overwritten-size buffer = length-blanks buffer.size

Reach-delivers_example : (d : Connection) × IsDelivered written_one d
unfolding starts sends fresh
Reach-delivers_example = Reach-delivers overwritten overwritten-size 1 written_one reached refl

-- A subscription that outlives a lost connection.
abbrev history : List (Event ℕ)
history = connected ∷ subscribes (str "devices") at_least_once true ∷ lost ∷ []

on_connected-resubscribes_example :
    Any
      (λ call. call ≡ subscribe_call (str "devices") at_least_once)
      (on_connected (run history new_client)).1
    ↔ (owed (str "devices") history false none ≡ some at_least_once)
on_connected-resubscribes_example = on_connected-resubscribes history (str "devices") at_least_once

abbrev server : WsServer ℕ
server = record {
  running = true;
  next_id = 3;
  sessions = (1, 10) ∷ (2, 20) ∷ [];
  topics = [];
  ioc_stopped = false;
}

broadcast_to_topic-reaches_example :
    Any
      (λ sent. sent ≡ (10, str "hello"))
      (broadcast_to_topic (str "sensors") (str "hello") (subscribe 1 (str "sensors") server))
    ↔ ((id : ℕ) × (is_subscribed id (str "sensors") (subscribe 1 (str "sensors") server) ≡ true)
        × (lookup id (subscribe 1 (str "sensors") server).sessions ≡ some 10))
broadcast_to_topic-reaches_example =
    broadcast_to_topic-reaches (str "sensors") (str "hello") (subscribe 1 (str "sensors") server) 10

asks : Examples.Value
asks = Examples.object (
    Examples.from_pairs (
      (str "type", Examples.text (str "subscribe"))
      ∷ (str "topic", Examples.text (str "sensors"))
      ∷ []))

abbrev json : Json
json = Examples.toy_json asks

asks_value : json.Value
unfolding Examples.toy_json
asks_value = asks

parsed : json.parse [] ≡ some asks_value
unfolding Examples.toy_json asks_value
parsed = refl

typed : value_text json asks_value (str "type") [] ≡ returns (str "subscribe")
unfolding value_text asks asks_value Examples.toy_json lookup str str_beq Examples.find_field
typed = refl

named : value_text json asks_value (str "topic") [] ≡ returns (str "sensors")
unfolding value_text asks asks_value Examples.toy_json lookup str str_beq Examples.find_field
named = refl

some_topic : is_empty (str "sensors") ≡ false
unfolding str
some_topic = refl

first_session : lookup 1 server.sessions ≡ some 10
unfolding lookup
first_session = refl

-- Another client comes, and one goes.
abbrev meanwhile : List (Subscriptions.Event ℕ)
meanwhile = Subscriptions.opens 3 30 ∷ Subscriptions.closes 2 ∷ []

spared : All (Subscriptions.Spares json 1 (str "sensors")) meanwhile
unfolding Subscriptions.Spares
spared = (λ e. absurd (omega arith), (λ e. absurd (omega arith), tt))

broadcast_to_topic-run_example :
    Any
      (λ sent. sent ≡ (10, str "hello"))
      (broadcast_to_topic
        (str "sensors")
        (str "hello")
        (Subscriptions.run json meanwhile (on_ws_message json 1 [] server).0))
broadcast_to_topic-run_example =
    Subscriptions.broadcast_to_topic-run json 1 [] (str "sensors") (str "hello") asks_value server
      10 meanwhile parsed typed named some_topic first_session spared

fan_on : Action json.Value
fan_on = record { device_id = str "fan"; command = str "on"; parameters = asks_value }

cooling : RuleRepository ℕ json.Value
cooling =
    (
      str "r1",
      record {
        id = str "r1";
        name = str "cool";
        enabled = true;
        conditions = hot ∷ [];
        actions = fan_on ∷ [];
        created_by = str "ann";
      },
    )
    ∷ []

as_value : ℕ → json.Value
unfolding asks_value
as_value n = asks_value

fan_command : Command
fan_command = record { device_id = str "fan"; command = str "on"; params = json.dump asks_value }

forward_reading-Fires_example :
    (Any
        (λ sent. sent ≡ (10, described json whole as_value reading))
        (forward_reading json whole as_value reading cooling server).0
      ↔ Watches reading.device_id 10 server)
    × (Any (λ d. d ≡ fan_command) (forward_reading json whole as_value reading cooling server).1
        ↔ Any (Fires whole (Asks json fan_command) reading) cooling)
forward_reading-Fires_example =
    forward_reading-Fires json whole as_value reading cooling server 10 fan_command
