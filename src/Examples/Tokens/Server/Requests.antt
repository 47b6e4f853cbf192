-- ===== src/Examples/Tokens/Server/Requests.antt =====
-- Requests to the whole application, and a fresh one.
use iot_dashboard_flutter.Common.{
  ◌||◌, ◌≡◌, refl, true, false, is_empty, if◌then◌else◌, [], ◌∷◌, some, Str, str, str_beq, arith,
  str_instance,
}
use iot_dashboard_flutter.Common.Map.{lookup, insert, contains}
use iot_dashboard_flutter.Common.Sets.{has}
use iot_dashboard_flutter.Exn.{returns}
use iot_dashboard_flutter.Security.Access.{TokenPair}
use iot_dashboard_flutter.Security.Jwt
use iot_dashboard_flutter.Security.Auth.{login}
use iot_dashboard_flutter.Http.{
  HttpRequest, new_response, get_header, error_response, or_empty, get_query_param,
}
use iot_dashboard_flutter.Http.Query.{IsPlain, write_query, get_query_param-beast_to_app}
use iot_dashboard_flutter.Http.Session.{BeastRequest, get_verb, beast_to_app}
use iot_dashboard_flutter.Http.Router.{dispatch}
use iot_dashboard_flutter.Automation.{AutomationRule, greater_than, op_to_string}
use iot_dashboard_flutter.Automation.Json.{condition_to_json}
use iot_dashboard_flutter.Api.Application.{register_http_routes}
use iot_dashboard_flutter.Api.Application.Guards.Open.{
  Lacks, no_bearer, complaint, dispatch-unauthorized,
}
use iot_dashboard_flutter.Api.Controllers.Automation.{rule_to_json, created_reply}
use iot_dashboard_flutter.Api.Middleware.{is_public_path}
use iot_dashboard_flutter.Api.Server.{Parts, auth_state, controllers, app_router}
use iot_dashboard_flutter.Api.Server.Posting.{dispatch-rule_to_json}
use iot_dashboard_flutter.Examples
use iot_dashboard_flutter.Examples.Tokens.{result_or, claims, service, ann}
use iot_dashboard_flutter.Examples.Tokens.Server.{
  credentials, choose_json, read_json, parts_with, state, token_with, request, authorized,
  protected_rules, not_viewer, none_sent,
}

no_token : HttpRequest
no_token = record (request (str "/devices") []) { headers = [] }

lacks :
    Lacks Examples.toy_crypto
      (read_json none_sent)
      (auth_state (parts_with none_sent))
      (state none_sent)
      no_token
unfolding no_token get_header lookup
lacks = no_bearer refl

dispatch-unauthorized_example :
    dispatch
      (register_http_routes Examples.toy_crypto
        (read_json none_sent)
        (auth_state (parts_with none_sent))
        (controllers (parts_with none_sent)))
      (state none_sent)
      no_token
      new_response
    ≡ (
      state none_sent,
      returns (
          error_response new_response 401 (str "Unauthorized") (
            complaint Examples.toy_crypto
              (read_json none_sent)
              (auth_state (parts_with none_sent))
              (state none_sent)
              no_token
              lacks)),
    )
unfolding no_token is_public_path str str_beq
dispatch-unauthorized_example =
    dispatch-unauthorized Examples.toy_crypto (read_json none_sent)
      (auth_state (parts_with none_sent)) (controllers (parts_with none_sent)) (state none_sent)
      no_token new_response lacks refl

condition : Examples.Value
condition = Examples.object (
    Examples.from_pairs (
      (str "sensor_type", Examples.text (str "temperature"))
      ∷ (str "operator", Examples.text (str ">"))
      ∷ (str "threshold", Examples.boolean true)
      ∷ []))

posted : Examples.Value
unfolding condition
posted = Examples.object (
    Examples.from_pairs (
      (str "id", Examples.text (str "r1"))
      ∷ (str "name", Examples.text (str "cool"))
      ∷ (str "enabled", Examples.boolean true)
      ∷ (str "conditions", Examples.array (Examples.from_items (condition ∷ [])))
      ∷ (str "actions", Examples.array (Examples.from_items []))
      ∷ []))

abbrev posting : Parts
posting = parts_with posted

cooling : AutomationRule (Unit {0}) posting.json.Value
cooling = record {
  id = str "r1";
  name = str "cool";
  enabled = true;
  conditions = record { sensor_type = str "temperature"; op = greater_than; threshold = tt } ∷ [];
  actions = [];
  created_by = [];
}

parsed : posting.json.parse [] ≡ some (rule_to_json posting.json posting.numbers cooling)
unfolding choose_json Examples.toy_json posted condition rule_to_json condition_to_json cooling
    op_to_string Examples.from_items Examples.from_pairs
parsed = refl

given : (is_empty cooling.id || is_empty cooling.name) ≡ false
unfolding cooling str
given = refl

dispatch-rule_to_json_example :
    let s = state posted in
    let rule : AutomationRule (Unit {0}) posting.json.Value = record cooling {
      created_by = claims.user_id;
    } in
    let reply =
      created_reply posting.json posting.numbers []
        (rule_to_json posting.json posting.numbers cooling)
        (insert cooling.id rule s.rule_repository)
        new_response in
    (dispatch
        (app_router posting)
        s
        (request (str "/automation/rules") (token_with posted))
        new_response
      ≡ (if contains cooling.id s.rule_repository
          then (
            s,
            returns
                (error_response new_response 409 (str "Conflict") (str "Rule ID already exists")),
          )
          else (
            record s { rule_repository = insert cooling.id rule s.rule_repository },
            returns reply,
          )))
    × (reply.status ≡ 201)
dispatch-rule_to_json_example =
    dispatch-rule_to_json posting (state posted)
      (request (str "/automation/rules") (token_with posted)) new_response claims cooling
      (authorized posted (str "/automation/rules") protected_rules) not_viewer refl refl parsed
      given

abbrev ann_sent : Examples.Value
ann_sent = credentials (str "ann") (str "secret")

abbrev logging_in : Parts
logging_in = parts_with ann_sent

ann_body : logging_in.json.Value
unfolding choose_json Examples.toy_json
ann_body = ann_sent

pair : TokenPair
pair =
    result_or (record { access_token = []; refresh_token = []; expires_in_seconds = 0 })
      (login Examples.toy_crypto logging_in.json service 1000 1000 (str "ann") (str "secret"))

found : lookup (str "ann") service.users ≡ some ann
unfolding lookup str str_beq
found = refl

fresh : has pair.access_token service.revoked_tokens ≡ false
unfolding has
fresh = refl

abbrev b_request : BeastRequest
b_request = record {
  verb = get_verb;
  target = b'/' ∷ b'?' ∷ b'a' ∷ b'=' ∷ b'1' ∷ b'&' ∷ b'b' ∷ b'=' ∷ b'2' ∷ [];
  version = 11;
  fields = [];
  body = [];
  keep_alive = true;
}

abbrev first : Str × Str
first = (b'a' ∷ [], b'1' ∷ [])

abbrev last : Str × Str
last = (b'b' ∷ [], b'2' ∷ [])

first-IsPlain : IsPlain first
first-IsPlain = record {
  name_ends = (λ e. omega arith, tt);
  name_whole = (λ e. omega arith, tt);
  value_whole = (λ e. omega arith, tt);
}

last-IsPlain : IsPlain last
last-IsPlain = record {
  name_ends = (λ e. omega arith, tt);
  name_whole = (λ e. omega arith, tt);
  value_whole = (λ e. omega arith, tt);
}

written : b_request.target ≡ b'/' ∷ b'?' ∷ write_query first (last ∷ [])
unfolding write_query
written = refl

get_query_param-beast_to_app_example :
    ((beast_to_app b_request).path ≡ b'/' ∷ [])
    × (get_query_param (beast_to_app b_request) (b'b' ∷ [])
        ≡ or_empty (lookup (b'b' ∷ []) (first ∷ last ∷ [])))
get_query_param-beast_to_app_example =
    get_query_param-beast_to_app b_request (b'/' ∷ []) (b'b' ∷ []) first (last ∷ [])
      (λ e. omega arith, tt) (first-IsPlain, (last-IsPlain, tt)) written
