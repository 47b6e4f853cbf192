-- ===== src/Automation/Json/Roundtrip.antt =====
-- Conditions and actions are read back from their JSON forms.
use iot_dashboard_flutter.Common.{List, [], ◌∷◌, Str, str, str_beq, ◌≡◌, refl}
use iot_dashboard_flutter.Common.Map.{lookup}
use iot_dashboard_flutter.Exn.{returns}
use iot_dashboard_flutter.Json.{Json, at-object}
use iot_dashboard_flutter.Automation.{
  Condition, ComparisonOp, greater_than, less_than, equal_to, not_equal, greater_or_equal,
  less_or_equal_to, op_from_string, op_to_string,
}
use iot_dashboard_flutter.Automation.Json.{JsonNumbers, condition_to_json, condition_from_json}

pub op_from_string-to_string : (op : ComparisonOp) → op_from_string (op_to_string op) ≡ op
unfolding op_from_string op_to_string str str_beq
op_from_string-to_string greater_than = refl
op_from_string-to_string less_than = refl
op_from_string-to_string equal_to = refl
op_from_string-to_string not_equal = refl
op_from_string-to_string greater_or_equal = refl
op_from_string-to_string less_or_equal_to = refl

module _ (json : Json) {N : Type 0} (numbers : JsonNumbers json N) where
  open json use {Value, object, text}
  open numbers use {number}

  -- A condition written as JSON is read back as it was.
  pub condition_from_json-to_json :
      (c : Condition N)
      → condition_from_json json numbers (condition_to_json json numbers c) ≡ returns c
  unfolding condition_from_json condition_to_json lookup str str_beq
  condition_from_json-to_json c =
      let fields : List (Str × Value) =
        (str "sensor_type", text c.sensor_type)
        ∷ (str "operator", text (op_to_string c.op))
        ∷ (str "threshold", number c.threshold)
        ∷ [] in
      rw (
        at-object json fields (str "sensor_type") (text c.sensor_type) refl,
        json.get_text-text c.sensor_type,
        at-object json fields (str "operator") (text (op_to_string c.op)) refl,
        json.get_text-text (op_to_string c.op),
        at-object json fields (str "threshold") (number c.threshold) refl,
        numbers.get_number-number c.threshold,
        op_from_string-to_string c.op,
      )
