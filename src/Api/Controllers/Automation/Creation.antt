-- ===== src/Api/Controllers/Automation/Creation.antt =====
-- A rule that is posted in its JSON form.
use iot_dashboard_flutter.Common.{
  Bool, true, false, ◌||◌, is_empty, if◌then◌else◌, map, List, [], ◌∷◌, some, Str, str, str_beq,
  ◌≡◌, refl, str_instance, Bool-cases, inl, inr,
}
use iot_dashboard_flutter.Common.Map.{lookup, insert, contains}
use iot_dashboard_flutter.Errors.{Result-cases, ok, err, invalid_input}
use iot_dashboard_flutter.Exn.{Exn, returns}
use iot_dashboard_flutter.Json.{
  Json, at-object, value_text-object, value_boolean-object, value_json-object,
}
use iot_dashboard_flutter.Http.{
  HttpRequest, HttpResponse, get_header, json_response, error_response,
}
use iot_dashboard_flutter.Automation.{Action, Condition, AutomationRule, RuleRepository}
use iot_dashboard_flutter.Automation.Json.{JsonNumbers, condition_to_json}
use iot_dashboard_flutter.Automation.Json.Roundtrip.{condition_from_json-to_json}
use iot_dashboard_flutter.Automation.Repository.{add, get_by_id}
use iot_dashboard_flutter.Api.Controllers.Automation.{
  rule_action_to_json, read_action, read_actions, rule_to_json, read_conditions, read_head,
  read_lists, created_reply, store_rule, add_rule_handler,
}

pair-if :
    {A B : Type 0} (b : Bool) (x y : A × B)
    → ◌≡◌ {A = A × Exn B}
        ((if b then x else y).0, returns (if b then x else y).1)
        (if b then (x.0, returns x.1) else (y.0, returns y.1))
pair-if true x y = refl
pair-if false x y = refl

module _ (json : Json) where
  open json use {Value, text, object}

  read_action-to_json :
      (a : Action Value) → read_action json (rule_action_to_json json a) ≡ returns a
  unfolding read_action rule_action_to_json lookup str str_beq
  read_action-to_json a =
      let fields : List (Str × Value) =
        (str "device_id", text a.device_id)
        ∷ (str "command", text a.command)
        ∷ (str "parameters", a.parameters)
        ∷ [] in
      rw (
        value_text-object json fields (str "device_id") a.device_id [] refl,
        value_text-object json fields (str "command") a.command [] refl,
        value_json-object json fields (str "parameters") a.parameters (object []) refl,
      )

  read_actions-to_json :
      (actions : List (Action Value))
      → read_actions json (map (rule_action_to_json json) actions) ≡ returns actions
  unfolding read_actions
  read_actions-to_json [] = refl
  read_actions-to_json (a ∷ rest) = rw (read_action-to_json a, read_actions-to_json rest)

module _ (json : Json) {N : Type 0} (numbers : JsonNumbers json N) where
  open json use {Value, text, boolean, object, array}

  read_conditions-to_json :
      (conditions : List (Condition N))
      → read_conditions json numbers (map (condition_to_json json numbers) conditions)
        ≡ returns conditions
  unfolding read_conditions
  read_conditions-to_json [] = refl
  read_conditions-to_json (c ∷ rest) =
      rw (condition_from_json-to_json json numbers c, read_conditions-to_json rest)

  rule_fields : AutomationRule N Value → List (Str × Value)
  rule_fields r =
      (str "id", text r.id)
      ∷ (str "name", text r.name)
      ∷ (str "enabled", boolean r.enabled)
      ∷ (str "conditions", array (map (condition_to_json json numbers) r.conditions))
      ∷ (str "actions", array (map (rule_action_to_json json) r.actions))
      ∷ []

  read_head-to_json :
      (req : HttpRequest) (r : AutomationRule N Value)
      → read_head json numbers req (rule_to_json json numbers r)
        ≡ returns (record r {
          conditions = [];
          actions = [];
          created_by = get_header req (str "x-user-id");
        })
  unfolding read_head rule_to_json rule_fields lookup str str_beq
  read_head-to_json req r = rw (
    value_text-object json (rule_fields r) (str "id") r.id [] refl,
    value_text-object json (rule_fields r) (str "name") r.name [] refl,
    value_boolean-object json (rule_fields r) (str "enabled") r.enabled true refl,
  )

  read_lists-to_json :
      (head r : AutomationRule N Value)
      → read_lists json numbers head (rule_to_json json numbers r)
        ≡ returns (record head { conditions = r.conditions; actions = r.actions })
  unfolding read_lists rule_to_json rule_fields lookup str str_beq
  read_lists-to_json head r = rw (
    at-object json (rule_fields r) (str "conditions")
        (array (map (condition_to_json json numbers) r.conditions)) refl,
    json.items-array (map (condition_to_json json numbers) r.conditions),
    read_conditions-to_json r.conditions,
    at-object json (rule_fields r) (str "actions")
        (array (map (rule_action_to_json json) r.actions)) refl,
    json.items-array (map (rule_action_to_json json) r.actions),
    read_actions-to_json json r.actions,
  )

  pub created_reply-status :
      (moved : Str) (body : Value) (rules : RuleRepository N Value) (res : HttpResponse)
      → (created_reply json numbers moved body rules res).status ≡ 201
  unfolding created_reply json_response
  created_reply-status moved body rules res = elim (Result-cases (get_by_id moved rules)) [
    | inr (rule, e) ↦ rw (e, created_reply)
    | inl (error, e) ↦ rw (e, created_reply)
  ]

  store_rule-contains :
      (moved : Str) (body : Value) (rule : AutomationRule N Value) (rules : RuleRepository N Value)
      (res : HttpResponse)
      → store_rule json numbers moved body rule rules res ≡ (
          if contains rule.id rules
          then (rules, error_response res 409 (str "Conflict") (str "Rule ID already exists"))
          else (
            insert rule.id rule rules,
            created_reply json numbers moved body (insert rule.id rule rules) res,
          ))
  unfolding store_rule add
  store_rule-contains moved body rule rules res = elim (Bool-cases (contains rule.id rules)) [
    | inl known ↦
        let e : add rule rules ≡ (rules, err invalid_input) = rw known in rw (known, e, store_rule)
    | inr new ↦
        let e : add rule rules ≡ (insert rule.id rule rules, ok tt) = rw new in
        rw (new, e, store_rule)
  ]

  -- A rule with an id and a name that is posted in its JSON form is stored under its id as that
  -- rule, with the user of the request as its creator, and answered with 201; where the id is
  -- taken, the answer is 409 and the rules stay. What the id holds after the move has no part in
  -- it.
  pub add_rule_handler-rule_to_json :
      (moved what : Str) (rules : RuleRepository N Value) (req : HttpRequest) (res : HttpResponse)
      (r : AutomationRule N Value)
      → json.parse req.body ≡ some (rule_to_json json numbers r)
      → (is_empty r.id || is_empty r.name) ≡ false
      → let rule : AutomationRule N Value = record r {
        created_by = get_header req (str "x-user-id");
      } in
        (add_rule_handler json numbers moved what rules req res ≡ (
          if contains r.id rules
          then (
            rules,
            returns (error_response res 409 (str "Conflict") (str "Rule ID already exists")),
          )
          else (
            insert r.id rule rules,
            returns (
                created_reply json numbers moved
                  (rule_to_json json numbers r)
                  (insert r.id rule rules)
                  res),
          )))
        × ((created_reply json numbers moved
              (rule_to_json json numbers r)
              (insert r.id rule rules)
              res).status
            ≡ 201)
  unfolding add_rule_handler
  add_rule_handler-rule_to_json moved what rules req res r parsed given =
      let rule : AutomationRule N Value = record r {
        created_by = get_header req (str "x-user-id");
      } in
      let head : AutomationRule N Value = record rule { conditions = []; actions = [] } in
      let body = rule_to_json json numbers r in
      (
        rw (parsed, add_rule_handler)
            (rw (read_head-to_json req r) (
              rw (given) (
                rw (read_lists-to_json head r) (
                  rw (store_rule-contains moved body rule rules res)
                    (pair-if (contains r.id rules) _ _))))),
        created_reply-status moved body (insert r.id rule rules) res,
      )
