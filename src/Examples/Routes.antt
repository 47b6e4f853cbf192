-- ===== src/Examples/Routes.antt =====
-- The application's routes, and a session.
use iot_dashboard_flutter.Common.{
  ℕ, ◌+◌, ◌≡◌, ◌≢◌, refl, true, not, is_empty, leb, length, ◌&&◌, [], ◌∷◌, ◌++◌, Str, str, str_beq,
  if◌then◌else◌, All, arith,
}
use iot_dashboard_flutter.Common.Map.{lookup}
use iot_dashboard_flutter.Common.Sets.{has}
use iot_dashboard_flutter.Exn.{returns, throws}
use iot_dashboard_flutter.Errors.{Result, ok, err}
use iot_dashboard_flutter.Json.{Json, pos}
use iot_dashboard_flutter.Security.Access.{UserClaims, Role, viewer}
use iot_dashboard_flutter.Security.Jwt
use iot_dashboard_flutter.Security.Jwt.Laws.{verify-generate}
use iot_dashboard_flutter.Security.Auth.{AuthenticationService, validate_token}
use iot_dashboard_flutter.Http.{HttpRequest, get, new_response, get_header, tolower}
use iot_dashboard_flutter.Http.Router.{HttpRouter, RouteHandler, dispatch}
use iot_dashboard_flutter.Http.Session.{BeastRequest, Beast, get_verb, is_bodyless}
use iot_dashboard_flutter.Api.Middleware.{AuthState, is_public_path}
use iot_dashboard_flutter.Api.Middleware.Laws.{IsAuthorized}
use iot_dashboard_flutter.Api.Application.{Handlers, register_http_routes}
use iot_dashboard_flutter.Api.Application.Guards.{forbidden, dispatch-viewer}
use iot_dashboard_flutter.Examples

abbrev claims_as : Role → UserClaims
claims_as role = record { user_id = str "u1"; username = str "ann"; role = role }

known_as : Role → Examples.Value
known_as role = Examples.object (
    Examples.from_pairs (
      (str "sub", Examples.text (str "u1"))
      ∷ (str "username", Examples.text (str "ann"))
      ∷ (str "role", Examples.text (Jwt.role_to_string role))
      ∷ (str "iat", Examples.integer (pos 1000))
      ∷ (str "exp", Examples.integer (pos (1000 + 3600)))
      ∷ []))

abbrev json_as : Role → Json
json_as role = Examples.toy_json (known_as role)

writable_as :
    (role : Role)
    → (json_as role).IsWritable
        (Jwt.payload Examples.toy_crypto (json_as role) (claims_as role) 1000 (1000 + 3600))
unfolding Jwt.payload known_as Examples.toy_json
writable_as role = refl

made : Result Str → Str
made (err e) = []
made (ok s) = s

token_as : Role → Str
token_as role =
    made (Jwt.generate Examples.toy_crypto (json_as role) (str "key") 1000 (claims_as role) 3600)

token_as-eq :
    (role : Role)
    → Jwt.generate Examples.toy_crypto (json_as role) (str "key") 1000 (claims_as role) 3600
      ≡ ok (token_as role)
unfolding Jwt.generate token_as made
token_as-eq role = refl

abbrev service : AuthenticationService
service = record {
  config = record {
    jwt_secret = str "key";
    access_token_expiry = 3600;
    refresh_token_expiry = 2592000;
    pbkdf2_iterations = 100000;
  };
  users = [];
  revoked_tokens = [];
}

-- The state is the service alone, and the clock stands at 2000.
abbrev state : AuthState AuthenticationService
state = record { service = λ s. s; clock = λ s. 2000 }

abbrev request : Str → HttpRequest
request token = record {
  method = get;
  target = str "/devices";
  path = str "/devices";
  query = [];
  headers = (str "authorization", str "Bearer " ++ token) ∷ [];
  body = [];
  http_version = 11;
}

abbrev ignore : RouteHandler AuthenticationService
ignore s req res = (s, returns res)

abbrev handlers : Handlers AuthenticationService
handlers = record {
  health = ignore;
  login = ignore;
  refresh = ignore;
  logout = ignore;
  list_devices = ignore;
  add_device = ignore;
  remove_device = ignore;
  send_command = ignore;
  list_readings = ignore;
  list_rules = ignore;
  add_rule = ignore;
  remove_rule = ignore;
  metrics = ignore;
}

valid_as :
    (role : Role)
    → validate_token Examples.toy_crypto (json_as role) service 2000 (token_as role)
      ≡ returns (ok (claims_as role))
unfolding validate_token has
valid_as role =
    verify-generate Examples.toy_crypto (json_as role) (str "key") 1000 2000 3600 (claims_as role)
      (token_as role) (writable_as role) (token_as-eq role)

IsAuthorized-as :
    (role : Role)
    → IsAuthorized Examples.toy_crypto
        (json_as role)
        state
        service
        (request (token_as role))
        (claims_as role)
unfolding is_public_path get_header lookup str str_beq tolower
IsAuthorized-as role = record {
  protected = refl;
  token = token_as role;
  bearer = refl;
  valid = valid_as role;
}

dispatch-viewer_example :
    dispatch
      (register_http_routes Examples.toy_crypto (json_as viewer) state handlers)
      service
      (request (token_as viewer))
      new_response
    ≡ (service, returns (forbidden new_response))
dispatch-viewer_example =
    dispatch-viewer Examples.toy_crypto (json_as viewer) state handlers service
      (request (token_as viewer)) new_response (claims_as viewer) (IsAuthorized-as viewer) refl

abbrev routes : Role → HttpRouter AuthenticationService
routes role = register_http_routes Examples.toy_crypto (json_as role) state handlers

abbrev b_request : BeastRequest
b_request = record {
  verb = get_verb;
  target = str "/sensors" ++ b'?' ∷ str "limit=5";
  version = 11;
  fields = [];
  body = [];
  keep_alive = true;
}

no_mark : All (λ c. c ≢ b'?') (str "/sensors")
unfolding str
no_mark = (
  λ e. omega arith,
  (
    λ e. omega arith,
    (
      λ e. omega arith,
      (
        λ e. omega arith,
        (λ e. omega arith, (λ e. omega arith, (λ e. omega arith, (λ e. omega arith, tt)))),
      ),
    ),
  ),
)

-- Fields of at most 8192 bytes; nothing is added to a response.
abbrev beast : Beast
beast = record {
  result = λ status. if leb status 999 then returns status else throws;
  result-returns = λ status h. rw h;
  result-throws = λ status h. rw h;
  can_set = λ key value. leb (length key) 8192 && leb (length value) 8192;
  can_set_short = λ key value h k. ground arith;
  set = λ key value fields.
      if leb (length key) 8192 && leb (length value) 8192
      then returns ((key, value) ∷ fields)
      else throws;
  set-returns = λ key value fields h. ((key, value) ∷ fields, rw h);
  set-throws = λ key value fields h. rw h;
  prepare_payload =
      λ res. if is_bodyless res.status && not (is_empty res.body) then throws else returns res;
  prepare-returns = λ res h. (res.fields, rw h);
  prepare-throws = λ res h. rw h;
}

abbrev empty_router : HttpRouter ℕ
empty_router = record { routes = []; middlewares = [] }

-- A handler that answers 204 with a body, which Boost.Beast refuses.
abbrev no_content : HttpRouter ℕ
no_content = record {
  routes =
      record {
        method = get;
        path = str "/sensors";
        handler = λ s req res. (s, returns (record res { status = 204; body = str "x" }));
      }
      ∷ [];
  middlewares = [];
}
