-- ===== src/Network/Mqtt.antt =====
-- src/network/mqtt/mqtt_client.cpp and .hpp. What the client asks of Paho is a result, and whether Paho
-- took the call is an argument, `accepted`. The mutexes make each access of the state a single step. The
-- connection options are handed to Paho as they are and are not modelled.
pub mod Resume
use iot_dashboard_flutter.Common.{
  ℕ, Bool, true, false, not, if◌then◌else◌, List, [], ◌∷◌, ◌++◌, Option, none, some, Str,
  str_instance,
}
use iot_dashboard_flutter.Common.Map.{insert, erase}
use iot_dashboard_flutter.Errors.{Result, ok, err, connection_failed, timeout, mqtt_error}

pub data Qos : Type 0 where
  at_most_once at_least_once exactly_once : Qos

pub data PahoCall : Type 0 where
  subscribe_call : Str → Qos → PahoCall
  unsubscribe_call : Str → PahoCall
  send_call : Str → Str → Qos → Bool → PahoCall
  connect_call disconnect_call : PahoCall

pub record MqttClient (C : Type 0) : Type 0 where
  pub connected : Bool
  pub subscriptions : List (Str × Qos)
  pub message_callback : Option C
  pub connect_done : Bool
  pub connect_success : Bool

-- The loop of ResubscribeAll.
unfoldable pub resubscribe_all : List (Str × Qos) → List PahoCall
resubscribe_all [] = []
resubscribe_all ((topic, qos) ∷ rest) = subscribe_call topic qos ∷ resubscribe_all rest

module _ {C : Type 0} where
  unfoldable pub new_client : MqttClient C
  new_client = record {
    connected = false;
    subscriptions = [];
    message_callback = none;
    connect_done = false;
    connect_success = false;
  }

  -- Connect, up to the call of Paho.
  unfoldable pub begin_connect : MqttClient C → MqttClient C × List PahoCall
  begin_connect m = (record m { connect_done = false; connect_success = false }, connect_call ∷ [])

  -- The rest of Connect, on the state when the wait ends: by `connect_done`, or by the time.
  unfoldable pub end_connect : Bool → MqttClient C → Result (Unit {0})
  end_connect accepted m =
      if not accepted
      then err connection_failed
      else if not m.connect_done
      then err timeout
      else if not m.connect_success
      then err connection_failed
      else ok tt

  unfoldable pub disconnect : MqttClient C → MqttClient C × List PahoCall × Result (Unit {0})
  disconnect m =
      if not m.connected
      then (m, [], ok tt)
      else (record m { connected = false }, disconnect_call ∷ [], ok tt)

  unfoldable pub subscribe :
      Str → Qos → Bool → MqttClient C → MqttClient C × List PahoCall × Result (Unit {0})
  subscribe topic qos accepted m =
      if not m.connected
      then (m, [], err connection_failed)
      else if not accepted
      then (m, subscribe_call topic qos ∷ [], err mqtt_error)
      else (
        record m { subscriptions = insert topic qos m.subscriptions },
        subscribe_call topic qos ∷ [],
        ok tt,
      )

  unfoldable pub unsubscribe : Str → MqttClient C → MqttClient C × List PahoCall × Result (Unit {0})
  unsubscribe topic m =
      (record m { subscriptions = erase topic m.subscriptions }, unsubscribe_call topic ∷ [], ok tt)

  unfoldable pub publish :
      Str → Str → Qos → Bool → Bool → MqttClient C → List PahoCall × Result (Unit {0})
  publish topic payload qos retain accepted m =
      if not m.connected
      then ([], err connection_failed)
      else if not accepted
      then (send_call topic payload qos retain ∷ [], err mqtt_error)
      else (send_call topic payload qos retain ∷ [], ok tt)

  unfoldable pub set_message_callback : C → MqttClient C → MqttClient C
  set_message_callback callback m = record m { message_callback = some callback }

  unfoldable pub on_connected : MqttClient C → MqttClient C × List PahoCall
  on_connected m = (record m { connected = true }, resubscribe_all m.subscriptions)

  unfoldable pub on_connection_lost : MqttClient C → MqttClient C
  on_connection_lost m = record m { connected = false }

  unfoldable pub on_connect_success : MqttClient C → MqttClient C
  on_connect_success m = record m { connect_done = true; connect_success = true }

  unfoldable pub on_connect_failure : MqttClient C → MqttClient C
  on_connect_failure m = record m { connect_done = true; connect_success = false }

  -- What the callback is called with, where there is one.
  unfoldable pub on_message_arrived : Str → Str → MqttClient C → Option (C × Str × Str)
  on_message_arrived topic payload m = elim m.message_callback [
    | none ↦ none
    | some callback ↦ some (callback, topic, payload)
  ]
