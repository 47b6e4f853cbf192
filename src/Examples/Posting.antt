-- ===== src/Examples/Posting.antt =====
-- A rule that is posted.
use iot_dashboard_flutter.Common.{
  ℕ, ◌||◌, is_empty, true, false, if◌then◌else◌, [], ◌∷◌, some, str, ◌≡◌, refl, str_instance,
}
use iot_dashboard_flutter.Common.Map.{insert, contains}
use iot_dashboard_flutter.Exn.{Exn, returns, throws}
use iot_dashboard_flutter.Json.{Json, pos}
use iot_dashboard_flutter.Http.{HttpRequest, post, new_response, get_header, error_response}
use iot_dashboard_flutter.Automation.{AutomationRule, RuleRepository, greater_than, op_to_string}
use iot_dashboard_flutter.Automation.Json.{JsonNumbers, condition_to_json}
use iot_dashboard_flutter.Api.Controllers.Automation.{
  rule_to_json, rule_action_to_json, created_reply, add_rule_handler,
}
use iot_dashboard_flutter.Api.Controllers.Automation.Creation.{add_rule_handler-rule_to_json}
use iot_dashboard_flutter.Examples

condition : Examples.Value
condition = Examples.object (
    Examples.from_pairs (
      (str "sensor_type", Examples.text (str "temperature"))
      ∷ (str "operator", Examples.text (str ">"))
      ∷ (str "threshold", Examples.integer (pos 30))
      ∷ []))

action : Examples.Value
action = Examples.object (
    Examples.from_pairs (
      (str "device_id", Examples.text (str "fan"))
      ∷ (str "command", Examples.text (str "on"))
      ∷ (str "parameters", Examples.boolean true)
      ∷ []))

posted : Examples.Value
unfolding condition action
posted = Examples.object (
    Examples.from_pairs (
      (str "id", Examples.text (str "r1"))
      ∷ (str "name", Examples.text (str "cool"))
      ∷ (str "enabled", Examples.boolean true)
      ∷ (str "conditions", Examples.array (Examples.from_items (condition ∷ [])))
      ∷ (str "actions", Examples.array (Examples.from_items (action ∷ [])))
      ∷ []))

abbrev json : Json
json = Examples.toy_json posted

write_number : ℕ → json.Value
unfolding Examples.toy_json
write_number n = Examples.integer (pos n)

read_number : json.Value → Exn ℕ
unfolding Examples.toy_json
read_number (Examples.integer (pos n)) = returns n
read_number _ = throws

read-write : (n : ℕ) → read_number (write_number n) ≡ returns n
unfolding read_number write_number Examples.toy_json
read-write n = refl

abbrev numbers : JsonNumbers json ℕ
numbers = record { number = write_number; get_number = read_number; get_number-number = read-write }

switched_on : json.Value
unfolding Examples.toy_json
switched_on = Examples.boolean true

cooling : AutomationRule ℕ json.Value
cooling = record {
  id = str "r1";
  name = str "cool";
  enabled = true;
  conditions = record { sensor_type = str "temperature"; op = greater_than; threshold = 30 } ∷ [];
  actions = record { device_id = str "fan"; command = str "on"; parameters = switched_on } ∷ [];
  created_by = [];
}

abbrev request : HttpRequest
request = record {
  method = post;
  target = str "/automation/rules";
  path = str "/automation/rules";
  query = [];
  headers = (str "x-user-id", str "ann") ∷ [];
  body = [];
  http_version = 11;
}

parsed : json.parse [] ≡ some (rule_to_json json numbers cooling)
unfolding Examples.toy_json posted condition action rule_to_json rule_action_to_json
    condition_to_json cooling switched_on write_number op_to_string Examples.from_items
    Examples.from_pairs
parsed = refl

given : (is_empty cooling.id || is_empty cooling.name) ≡ false
unfolding cooling str
given = refl

abbrev no_rules : RuleRepository ℕ json.Value
no_rules = []

add_rule_handler-rule_to_json_example :
    let rule : AutomationRule ℕ json.Value = record cooling {
      created_by = get_header request (str "x-user-id");
    } in
    (add_rule_handler json numbers [] [] no_rules request new_response ≡ (
      if contains cooling.id no_rules
      then (
        no_rules,
        returns (error_response new_response 409 (str "Conflict") (str "Rule ID already exists")),
      )
      else (
        insert cooling.id rule no_rules,
        returns (
            created_reply json numbers []
              (rule_to_json json numbers cooling)
              (insert cooling.id rule no_rules)
              new_response),
      )))
    × ((created_reply json numbers []
          (rule_to_json json numbers cooling)
          (insert cooling.id rule no_rules)
          new_response).status
        ≡ 201)
add_rule_handler-rule_to_json_example =
    add_rule_handler-rule_to_json json numbers [] [] no_rules request new_response cooling parsed
      given
