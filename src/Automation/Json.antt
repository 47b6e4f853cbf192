-- ===== src/Automation/Json.antt =====
-- src/automation/rule_types.hpp: the JSON forms of conditions and actions.
pub mod Roundtrip
use iot_dashboard_flutter.Common.{List, [], ◌∷◌, Str, str, ◌≡◌}
use iot_dashboard_flutter.Exn.{Exn, returns, throws, ◌>>=◌}
use iot_dashboard_flutter.Json.{Json, value_text, value_json, at}
use iot_dashboard_flutter.Automation.{Condition, Action, op_from_string, op_to_string}

-- `double` as a value.
pub record JsonNumbers (json : Json) (N : Type 0) : Type 0 where
  pub number : N → json.Value
  pub get_number : json.Value → Exn N
  pub get_number-number : (x : N) → get_number (number x) ≡ returns x

module _ (json : Json) {N : Type 0} (numbers : JsonNumbers json N) where
  open json use {Value, text, object, get_text}
  open numbers use {number, get_number}

  unfoldable pub condition_to_json : Condition N → Value
  unfolding op_to_string
  condition_to_json c = object (
      (str "sensor_type", text c.sensor_type)
      ∷ (str "operator", text (op_to_string c.op))
      ∷ (str "threshold", number c.threshold)
      ∷ [])

  unfoldable pub condition_from_json : Value → Exn (Condition N)
  unfolding op_from_string
  condition_from_json j = at json j (str "sensor_type") >>= get_text >>= λ sensor_type.
      at json j (str "operator") >>= get_text >>= λ op.
      at json j (str "threshold") >>= get_number >>= λ threshold.
      returns (record { sensor_type = sensor_type; op = op_from_string op; threshold = threshold })

module _ (json : Json) where
  open json use {Value, text, object, get_text}

  unfoldable pub action_to_json : Action Value → Value
  action_to_json a = object (
      (str "device_id", text a.device_id)
      ∷ (str "command", text a.command)
      ∷ (str "parameters", a.parameters)
      ∷ [])

  unfoldable pub action_from_json : Value → Exn (Action Value)
  action_from_json j = at json j (str "device_id") >>= get_text >>= λ device_id.
      at json j (str "command") >>= get_text >>= λ command.
      value_json json j (str "parameters") (object []) >>= λ parameters.
      returns (record { device_id = device_id; command = command; parameters = parameters })
