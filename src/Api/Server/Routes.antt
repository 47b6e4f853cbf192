-- ===== src/Api/Server/Routes.antt =====
-- Which route a request takes, and what the handler sees of it after the guards.
use iot_dashboard_flutter.Common.{
  false, drop, List, [], ◌∷◌, map, some, Str, str, ◌≡◌, ◌≢◌, refl, ◌∙◌, str_beq, str_beq_iff,
}
use iot_dashboard_flutter.Common.Map.{lookup-insert_ne, lookup-insert_self}
use iot_dashboard_flutter.Security.Access.{UserClaims, Permission}
use iot_dashboard_flutter.Http.{HttpRequest, HttpMethod, post, get_header, tolower}
use iot_dashboard_flutter.Http.Router.{Route, RouteHandler, same_method, add_route, add_middleware}
use iot_dashboard_flutter.Http.Router.Laws.{first_route}
use iot_dashboard_flutter.Api.Middleware.{inject_claims}
use iot_dashboard_flutter.Api.Middleware.Laws.{inject_claims-authorization}
use iot_dashboard_flutter.Api.Application.{
  new_router, add_guard, register_health, register_auth, register_devices, register_sensors,
  register_automation, register_metrics, register_http_routes,
}
use iot_dashboard_flutter.Api.Application.Guards.{grants, injected}
use iot_dashboard_flutter.Api.Server.{
  Parts, ServerState, app_router, controllers, add_rule_route, login_route, logout_route,
}

module _ (parts : Parts) where
  abbrev route_of : HttpMethod → Str → RouteHandler (ServerState parts) → Route (ServerState parts)
  route_of method path handler = record { method = method; path = path; handler = handler }

  pub first_route-add_rule :
      (req : HttpRequest)
      → req.path ≡ str "/automation/rules"
      → req.method ≡ post
      → first_route req (app_router parts).routes
        ≡ some (route_of post (str "/automation/rules") (add_rule_route parts))
  unfolding first_route app_router controllers same_method str str_beq register_http_routes
      new_router add_guard add_route add_middleware register_health register_auth register_devices
      register_sensors register_automation register_metrics
  first_route-add_rule req path method = rw (path, method)

  pub first_route-login :
      (req : HttpRequest)
      → req.path ≡ str "/auth/login"
      → req.method ≡ post
      → first_route req (app_router parts).routes
        ≡ some (route_of post (str "/auth/login") (login_route parts))
  unfolding first_route app_router controllers same_method str str_beq register_http_routes
      new_router add_guard add_route add_middleware register_health register_auth register_devices
      register_sensors register_automation register_metrics
  first_route-login req path method = rw (path, method)

  pub first_route-logout :
      (req : HttpRequest)
      → req.path ≡ str "/auth/logout"
      → req.method ≡ post
      → first_route req (app_router parts).routes
        ≡ some (route_of post (str "/auth/logout") (logout_route parts))
  unfolding first_route app_router controllers same_method str str_beq register_http_routes
      new_router add_guard add_route add_middleware register_health register_auth register_devices
      register_sensors register_automation register_metrics
  first_route-logout req path method = rw (path, method)

pub injected-body :
    (claims : UserClaims) (gs : List (Str × Permission)) (req : HttpRequest)
    → (injected claims gs req).body ≡ req.body
unfolding injected inject_claims
injected-body claims [] req = refl
injected-body claims (g ∷ gs) req = injected-body claims gs (inject_claims claims req)

pub injected-authorization :
    (claims : UserClaims) (gs : List (Str × Permission)) (req : HttpRequest)
    → get_header (injected claims gs req) (str "authorization")
      ≡ get_header req (str "authorization")
unfolding injected
injected-authorization claims [] req = refl
injected-authorization claims (g ∷ gs) req =
    injected-authorization claims gs (inject_claims claims req)
    ∙ inject_claims-authorization claims req

-- The user's id is the last value that a guard gave to its header.
inject_claims-user_id :
    (claims : UserClaims) (req : HttpRequest)
    → get_header (inject_claims claims req) (str "x-user-id") ≡ claims.user_id
unfolding get_header inject_claims str_beq str tolower
inject_claims-user_id claims req =
    let key : Str = map tolower (str "x-user-id") in
    rw (
      lookup-insert_ne (str "x-role") key _ _ (other (str "x-role") refl),
      lookup-insert_ne (str "x-username") key _ _ (other (str "x-username") refl),
      lookup-insert_self (str "x-user-id") claims.user_id req.headers,
    )
  where
    other :
        (name : Str)
        → str_beq name (map tolower (str "x-user-id")) ≡ false
        → name ≢ map tolower (str "x-user-id")
    other name differs e = cc (differs, (str_beq_iff name _).1 e)

injected-user_id_again :
    (claims : UserClaims) (gs : List (Str × Permission)) (req : HttpRequest)
    → get_header (injected claims gs (inject_claims claims req)) (str "x-user-id") ≡ claims.user_id
unfolding injected
injected-user_id_again claims [] req = inject_claims-user_id claims req
injected-user_id_again claims (g ∷ gs) req =
    injected-user_id_again claims gs (inject_claims claims req)

pub injected-user_id :
    (claims : UserClaims) (req : HttpRequest)
    → get_header (injected claims grants req) (str "x-user-id") ≡ claims.user_id
unfolding injected grants
injected-user_id claims req = injected-user_id_again claims (drop 1 grants) req
