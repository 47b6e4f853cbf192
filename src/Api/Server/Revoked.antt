-- ===== src/Api/Server/Revoked.antt =====
-- A token that was logged out over the router, and the requests that follow.
use iot_dashboard_flutter.Common.{
  true, false, ◌++◌, List, [], ◌∷◌, some, All, Str, str, ◌≡◌, ◌≢◌, ◌∙◌, arith, str_instance,
  Bool-cases, inl, inr, ◌&&◌, ◌==◌, drop, str_beq_iff, Option-cases, subst,
}
use iot_dashboard_flutter.Common.Search.{starts_with}
use iot_dashboard_flutter.Common.Sets.{has, has-add}
use iot_dashboard_flutter.Errors.{token_expired}
use iot_dashboard_flutter.Exn.{Exn-cases, returns}
use iot_dashboard_flutter.Security.Access.{UserClaims, viewer}
use iot_dashboard_flutter.Security.Auth.{logout, validate_token}
use iot_dashboard_flutter.Http.{
  HttpRequest, HttpResponse, post, get_header, error_response, new_response,
}
use iot_dashboard_flutter.Http.Router.{
  Route, run_chain, same_method, dispatch, add_route, add_middleware,
}
use iot_dashboard_flutter.Http.Router.Laws.{first_route, knows_path, answer, dispatch-answer}
use iot_dashboard_flutter.Api.Middleware.{is_public_path}
use iot_dashboard_flutter.Api.Middleware.Laws.{IsAuthorized}
use iot_dashboard_flutter.Api.Application.{
  new_router, add_guard, register_health, register_auth, register_devices, register_sensors,
  register_automation, register_metrics, register_http_routes,
}
use iot_dashboard_flutter.Api.Application.Guards.{grants, injected, dispatch-others}
use iot_dashboard_flutter.Api.Application.Guards.Open.{dispatch-unauthorized, invalid, complaint}
use iot_dashboard_flutter.Api.Controllers.Auth.{logout_handler}
use iot_dashboard_flutter.Api.Controllers.Auth.Logout.{logout_handler-bearer}
use iot_dashboard_flutter.Api.Server.{
  Parts, Outside, ServerState, auth_state, controllers, app_router, health_route, login_route,
  refresh_route, logout_route, list_devices_route, add_device_route, remove_device_route,
  send_command_route, list_readings_route, list_rules_route, add_rule_route, remove_rule_route,
  metrics_route,
}
use iot_dashboard_flutter.Api.Server.Routes.{injected-authorization, first_route-logout}

module _ {S : Type 0} (P : Route S → Type 0) where
  first_route-All :
      (req : HttpRequest) (routes : List (Route S)) (route : Route S)
      → All P routes
      → first_route req routes ≡ some route
      → P route
  unfolding first_route
  first_route-All req [] route h found = absurd (ground arith)
  first_route-All req (r ∷ rest) route (here, later) found =
      elim (Bool-cases (r.path == req.path && same_method r.method req.method)) [
        | inl this ↦ let e : r ≡ route = ground (arith, this, found) in subst P e here
        | inr other ↦ first_route-All req rest route later (ground (arith, other, found))
      ]

module _ (parts : Parts) where
  open parts use {crypto, json}

  IsRevoked : Str → ServerState parts → Type 0
  IsRevoked token s = has token s.auth_service.revoked_tokens ≡ true

  -- A handler after which the token is as revoked as before.
  Keeps : Str → Route (ServerState parts) → Type 0
  unfolding IsRevoked
  Keeps token route =
      (s : ServerState parts) (req : HttpRequest) (res : HttpResponse)
      → IsRevoked token s
      → IsRevoked token (route.handler s req res).0

  logout_route-IsRevoked :
      (token : Str) (s : ServerState parts) (req : HttpRequest) (res : HttpResponse)
      → IsRevoked token s
      → IsRevoked token (logout_route parts s req res).0
  unfolding logout_route logout_handler logout IsRevoked
  logout_route-IsRevoked token s req res h =
      let auth : Str = get_header req (str "authorization") in
      elim (Bool-cases (starts_with (str "Bearer ") auth)) [
        | inl bearer ↦
            rw (bearer, has-add (drop 7 auth) token s.auth_service.revoked_tokens, h) (ground arith)
        | inr other ↦ rw (other) h
      ]

  routes-Keeps : (token : Str) → All (Keeps token) (app_router parts).routes
  unfolding Keeps app_router controllers register_http_routes new_router add_guard add_route
      add_middleware register_health register_auth register_devices register_sensors
      register_automation register_metrics health_route login_route refresh_route list_devices_route
      add_device_route remove_device_route send_command_route list_readings_route list_rules_route
      add_rule_route remove_rule_route metrics_route
  routes-Keeps token = (
    λ s req res h. h,
    (
      λ s req res h. h,
      (
        λ s req res h. h,
        (
          logout_route-IsRevoked token,
          (
            λ s req res h. h,
            (
              λ s req res h. h,
              (
                λ s req res h. h,
                (
                  λ s req res h. h,
                  (
                    λ s req res h. h,
                    (
                      λ s req res h. h,
                      (λ s req res h. h, (λ s req res h. h, (λ s req res h. h, tt))),
                    ),
                  ),
                ),
              ),
            ),
          ),
        ),
      ),
    ),
  )

  answer-IsRevoked :
      (token : Str) (s : ServerState parts) (req : HttpRequest) (res : HttpResponse)
      → IsRevoked token s
      → let routes = (app_router parts).routes in
        IsRevoked token (answer (first_route req routes) (knows_path req routes) s req res).0
  unfolding answer Keeps
  answer-IsRevoked token s req res h =
      let routes = (app_router parts).routes in
      elim (Option-cases (first_route req routes)) [
        | inr (route, found) ↦
            rw (found, answer)
              (first_route-All (Keeps token) req routes route (routes-Keeps token) found s req res
                h)
        | inl missing ↦ elim (Bool-cases (knows_path req routes)) [
          | inl known ↦ rw (missing, known, answer) h
          | inr unknown ↦ rw (missing, unknown, answer) h
        ]
      ]

  dispatch-IsRevoked :
      (token : Str) (s : ServerState parts) (req : HttpRequest) (res : HttpResponse)
      → IsRevoked token s
      → IsRevoked token (dispatch (app_router parts) s req res).0
  unfolding dispatch
  dispatch-IsRevoked token s req res h =
      elim (Exn-cases (run_chain (app_router parts).middlewares s req res)) [
        | inl thrown ↦ rw (thrown, dispatch) h
        | inr (p, passed) ↦
            rw (dispatch-answer (app_router parts) s req res p passed)
              (elim (Bool-cases p.proceeds) [
                | inl goes ↦ rw (goes) (answer-IsRevoked token s p.req p.res h)
                | inr stops ↦ rw (stops) h
              ])
      ]

  -- The state after a sequence of requests, each with what it finds outside the program.
  pub serve : ServerState parts → List (Outside × HttpRequest) → ServerState parts
  serve s [] = s
  serve s ((outside, req) ∷ rest) =
      serve (dispatch (app_router parts) (record s { outside = outside }) req new_response).0 rest

  serve-IsRevoked :
      (token : Str) (s : ServerState parts) (requests : List (Outside × HttpRequest))
      → IsRevoked token s
      → IsRevoked token (serve s requests)
  unfolding serve IsRevoked
  serve-IsRevoked token s [] h = h
  serve-IsRevoked token s ((outside, req) ∷ rest) h =
      let now : ServerState parts = record s { outside = outside } in
      serve-IsRevoked token (dispatch (app_router parts) now req new_response).0 rest
        (dispatch-IsRevoked token now req new_response h)

  dispatch-logout_route :
      (s : ServerState parts) (req : HttpRequest) (res : HttpResponse) (claims : UserClaims)
      (a : IsAuthorized crypto json (auth_state parts) s req claims)
      → claims.role ≢ viewer
      → req.method ≡ post
      → req.path ≡ str "/auth/logout"
      → IsRevoked a.token (dispatch (app_router parts) s req res).0
  unfolding app_router answer logout_route IsRevoked logout
  dispatch-logout_route s req res claims a may method path =
      let seen = injected claims grants req in
      rw (dispatch-others crypto json (auth_state parts) (controllers parts) s req res claims a may)
        (rw (first_route-logout parts req path method, answer)
          (rw
            (logout_handler-bearer crypto json s.auth_service seen res a.token
              (injected-authorization claims grants req ∙ a.bearer))
            (ground (
              arith,
              has-add a.token a.token s.auth_service.revoked_tokens,
              str_beq_iff a.token a.token,
            ))))

  -- After an administrator or an operator has posted to /auth/logout with a token, every request
  -- with that token for a path that is not public is answered with 401 and changes nothing,
  -- whatever requests by whomever were served in between and whatever the clocks say.
  pub dispatch-logout :
      (s : ServerState parts) (req req' : HttpRequest) (res res' : HttpResponse)
      (claims : UserClaims) (a : IsAuthorized crypto json (auth_state parts) s req claims)
      (between : List (Outside × HttpRequest)) (outside : Outside)
      → claims.role ≢ viewer
      → req.method ≡ post
      → req.path ≡ str "/auth/logout"
      → get_header req' (str "authorization") ≡ str "Bearer " ++ a.token
      → is_public_path req'.path ≡ false
      → let t : ServerState parts =
          record (serve (dispatch (app_router parts) s req res).0 between) { outside = outside } in
        dispatch (app_router parts) t req' res' ≡ (
          t,
          returns (error_response res' 401 (str "Unauthorized") (str "Invalid or expired token")),
        )
  unfolding app_router auth_state IsRevoked validate_token complaint
  dispatch-logout s req req' res res' claims a between outside may method path bearer protected =
      let t : ServerState parts = record (serve (dispatch (app_router parts) s req res).0 between) {
        outside = outside;
      } in
      let revoked : has a.token t.auth_service.revoked_tokens ≡ true =
        serve-IsRevoked a.token _ between
          (dispatch-logout_route s req res claims a may method path) in
      dispatch-unauthorized crypto json (auth_state parts) (controllers parts) t req' res'
        (invalid a.token token_expired bearer (rw revoked)) protected
