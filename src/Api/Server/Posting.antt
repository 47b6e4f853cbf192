-- ===== src/Api/Server/Posting.antt =====
-- A rule that is posted to the application.
use iot_dashboard_flutter.Common.{
  false, ◌||◌, is_empty, if◌then◌else◌, some, str, ◌≡◌, ◌≢◌, ◌∙◌, str_instance, Bool-cases, inl,
  inr,
}
use iot_dashboard_flutter.Common.Map.{insert, contains}
use iot_dashboard_flutter.Exn.{returns}
use iot_dashboard_flutter.Security.Access.{UserClaims, viewer}
use iot_dashboard_flutter.Http.{HttpRequest, HttpResponse, post, get_header, error_response}
use iot_dashboard_flutter.Http.Router.{dispatch}
use iot_dashboard_flutter.Http.Router.Laws.{answer}
use iot_dashboard_flutter.Automation.{AutomationRule}
use iot_dashboard_flutter.Api.Middleware.Laws.{IsAuthorized}
use iot_dashboard_flutter.Api.Application.Guards.{grants, injected, dispatch-others}
use iot_dashboard_flutter.Api.Controllers.Automation.{rule_to_json, created_reply}
use iot_dashboard_flutter.Api.Controllers.Automation.Creation.{
  created_reply-status, add_rule_handler-rule_to_json,
}
use iot_dashboard_flutter.Api.Server.{
  Parts, ServerState, auth_state, controllers, app_router, add_rule_route,
}
use iot_dashboard_flutter.Api.Server.Routes.{injected-body, injected-user_id, first_route-add_rule}

module _ (parts : Parts) where
  open parts use {crypto, json, Number, numbers}

  add_rule_route-rule_to_json :
      (s : ServerState parts) (req : HttpRequest) (res : HttpResponse)
      (r : AutomationRule Number json.Value)
      → json.parse req.body ≡ some (rule_to_json json numbers r)
      → (is_empty r.id || is_empty r.name) ≡ false
      → let rule : AutomationRule Number json.Value = record r {
        created_by = get_header req (str "x-user-id");
      } in
        add_rule_route parts s req res ≡ (
          if contains r.id s.rule_repository
          then (s, returns (error_response res 409 (str "Conflict") (str "Rule ID already exists")))
          else (
            record s { rule_repository = insert r.id rule s.rule_repository },
            returns (
                created_reply json numbers s.outside.moved
                  (rule_to_json json numbers r)
                  (insert r.id rule s.rule_repository)
                  res),
          ))
  unfolding add_rule_route
  add_rule_route-rule_to_json s req res r parsed given =
      let posted =
        add_rule_handler-rule_to_json json numbers s.outside.moved s.outside.what s.rule_repository
          req res r parsed given in
      elim (Bool-cases (contains r.id s.rule_repository)) [
        | inl known ↦ rw (posted.0, known)
        | inr new ↦ rw (posted.0, new)
      ]

  -- An administrator or an operator who posts a rule, with an id and a name, in its JSON form to
  -- /automation/rules gets it stored under its id with the user's own id as its creator, whatever
  -- the request says, and an answer with status 201; where the id is taken, the answer is 409 and
  -- the application's state stays as it is.
  pub dispatch-rule_to_json :
      (s : ServerState parts) (req : HttpRequest) (res : HttpResponse) (claims : UserClaims)
      (r : AutomationRule Number json.Value)
      → IsAuthorized crypto json (auth_state parts) s req claims
      → claims.role ≢ viewer
      → req.method ≡ post
      → req.path ≡ str "/automation/rules"
      → json.parse req.body ≡ some (rule_to_json json numbers r)
      → (is_empty r.id || is_empty r.name) ≡ false
      → let rule : AutomationRule Number json.Value = record r { created_by = claims.user_id } in
        let reply =
          created_reply json numbers s.outside.moved
            (rule_to_json json numbers r)
            (insert r.id rule s.rule_repository)
            res in
        (dispatch (app_router parts) s req res ≡ (
          if contains r.id s.rule_repository
          then (s, returns (error_response res 409 (str "Conflict") (str "Rule ID already exists")))
          else (record s { rule_repository = insert r.id rule s.rule_repository }, returns reply)))
        × (reply.status ≡ 201)
  unfolding app_router answer
  dispatch-rule_to_json s req res claims r a may method path parsed given =
      let seen = injected claims grants req in
      let parsed' : json.parse seen.body ≡ some (rule_to_json json numbers r) =
        rw (injected-body claims grants req) parsed in
      (
        dispatch-others crypto json (auth_state parts) (controllers parts) s req res claims a may
            ∙ rw (first_route-add_rule parts req path method, answer)
                (add_rule_route-rule_to_json s seen res r parsed' given
                  ∙ rw (injected-user_id claims req)),
        created_reply-status json numbers s.outside.moved _ _ res,
      )
