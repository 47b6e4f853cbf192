-- ===== src/Api/Controllers/Automation.antt =====
-- src/api/controllers/automation_controller.cpp: the handlers of rules. A handler that throws gives
-- `throws`.
pub mod Creation
use iot_dashboard_flutter.Common.{
  ℕ, Bool, true, ◌||◌, is_empty, if◌then◌else◌, map, length, List, [], ◌∷◌, ◌++◌, none, some, Str,
  str,
}
use iot_dashboard_flutter.Errors.{Result, ok, err}
use iot_dashboard_flutter.Exn.{Exn, returns, throws, ◌>>=◌}
use iot_dashboard_flutter.Json.{Json, pos, value_text, value_boolean, value_json, at}
use iot_dashboard_flutter.Http.{
  HttpRequest, HttpResponse, get_header, get_query_param, json_response, error_response, no_content,
}
use iot_dashboard_flutter.Automation.{Action, Condition, AutomationRule, RuleRepository}
use iot_dashboard_flutter.Automation.Json.{JsonNumbers, condition_to_json, condition_from_json}
use iot_dashboard_flutter.Automation.Repository.{add, remove, get_by_id, get_all}

module _ (json : Json) where
  open json use {Value, text, object}

  unfoldable pub rule_action_to_json : Action Value → Value
  rule_action_to_json a = object (
      (str "device_id", text a.device_id)
      ∷ (str "command", text a.command)
      ∷ (str "parameters", a.parameters)
      ∷ [])

  -- The body of the loop over "actions".
  unfoldable pub read_action : Value → Exn (Action Value)
  read_action a = value_text json a (str "device_id") [] >>= λ device_id.
      value_text json a (str "command") [] >>= λ command.
      value_json json a (str "parameters") (object []) >>= λ parameters.
      returns (record { device_id = device_id; command = command; parameters = parameters })

  unfoldable pub read_actions : List Value → Exn (List (Action Value))
  unfolding read_action
  read_actions [] = returns []
  read_actions (a ∷ rest) =
      read_action a >>= λ action. read_actions rest >>= λ actions. returns (action ∷ actions)

  unfoldable pub remove_reply : HttpResponse → Result (Unit {0}) → HttpResponse
  remove_reply res (err e) = error_response res 404 (str "NotFound") (str "Rule not found")
  remove_reply res (ok u) = no_content res

  unfoldable pub remove_rule_handler :
      {N : Type 0}
      → RuleRepository N Value
      → HttpRequest
      → HttpResponse
      → RuleRepository N Value × HttpResponse
  unfolding remove_reply
  remove_rule_handler rules req res =
      let id : Str = get_query_param req (str "id") in
      if is_empty id
      then (rules, error_response res 400 (str "BadRequest") (str "id query parameter required"))
      else ((remove id rules).0, remove_reply res (remove id rules).1)

module _ (json : Json) {N : Type 0} (numbers : JsonNumbers json N) where
  open json use {Value, text, boolean, integer, object, array, items, dump, parse}

  unfoldable pub rule_to_json : AutomationRule N Value → Value
  unfolding rule_action_to_json
  rule_to_json r = object (
      (str "id", text r.id)
      ∷ (str "name", text r.name)
      ∷ (str "enabled", boolean r.enabled)
      ∷ (str "conditions", array (map (condition_to_json json numbers) r.conditions))
      ∷ (str "actions", array (map (rule_action_to_json json) r.actions))
      ∷ [])

  -- ListRules never fails, see get_all.
  unfoldable pub list_rules_handler : RuleRepository N Value → HttpResponse → HttpResponse
  unfolding rule_to_json
  list_rules_handler rules res = json_response res 200 (
      dump (
        object (
          (str "rules", array (map rule_to_json (get_all rules)))
          ∷ (str "total", integer (pos (length (get_all rules))))
          ∷ [])))

  unfoldable pub read_conditions : List Value → Exn (List (Condition N))
  read_conditions [] = returns []
  read_conditions (c ∷ rest) = condition_from_json json numbers c >>= λ condition.
      read_conditions rest >>= λ conditions. returns (condition ∷ conditions)

  -- The members that are read before the test of id and name; what it throws is not caught.
  unfoldable pub read_head : HttpRequest → Value → Exn (AutomationRule N Value)
  read_head req body = value_text json body (str "id") [] >>= λ id.
      value_text json body (str "name") [] >>= λ name.
      value_boolean json body (str "enabled") true >>= λ enabled. returns (record {
        id = id;
        name = name;
        enabled = enabled;
        conditions = [];
        actions = [];
        created_by = get_header req (str "x-user-id");
      })

  -- The body of the `try`.
  unfoldable pub read_lists : AutomationRule N Value → Value → Exn (AutomationRule N Value)
  unfolding read_conditions read_actions
  read_lists rule body = at json body (str "conditions") >>= λ listed.
      read_conditions (items listed) >>= λ conditions. at json body (str "actions") >>= λ wanted.
      read_actions json (items wanted) >>= λ actions.
      returns (record rule { conditions = conditions; actions = actions })

  -- `moved` is what `rule.m_id` holds after the rule was moved from.
  unfoldable pub created_reply : Str → Value → RuleRepository N Value → HttpResponse → HttpResponse
  unfolding rule_to_json
  created_reply moved body rules res = elim (get_by_id moved rules) [
    | err e ↦ json_response res 201 (dump body)
    | ok created ↦ json_response res 201 (dump (rule_to_json created))
  ]

  unfoldable pub store_rule :
      Str
      → Value
      → AutomationRule N Value
      → RuleRepository N Value
      → HttpResponse
      → RuleRepository N Value × HttpResponse
  unfolding created_reply
  store_rule moved body rule rules res =
      let added = add rule rules in
      elim added.1 [
        | err e ↦ (added.0, error_response res 409 (str "Conflict") (str "Rule ID already exists"))
        | ok u ↦ (added.0, created_reply moved body added.0 res)
      ]

  -- `what` is the text of an exception.
  unfoldable pub add_rule_handler :
      Str
      → Str
      → RuleRepository N Value
      → HttpRequest
      → HttpResponse
      → RuleRepository N Value × Exn HttpResponse
  unfolding read_head read_lists store_rule
  add_rule_handler moved what rules req res = elim (parse req.body) [
    | none ↦ (rules, returns (error_response res 400 (str "BadRequest") (str "Invalid JSON")))
    | some body ↦ elim (read_head req body) [
      | throws ↦ (rules, throws)
      | returns head ↦
          if is_empty head.id || is_empty head.name
          then (
            rules,
            returns (error_response res 400 (str "BadRequest") (str "id and name required")),
          )
          else elim (read_lists head body) [
            | throws ↦ (
              rules,
              returns (
                  error_response res 400 (str "BadRequest")
                    (str "Invalid conditions/actions: " ++ what)),
            )
            | returns rule ↦ (
              (store_rule moved body rule rules res).0,
              returns (store_rule moved body rule rules res).1,
            )
          ]
    ]
  ]
