-- ===== src/Api/Application/Guards.antt =====
-- Who reaches the routes of the application.
pub mod Open
use iot_dashboard_flutter.Common.{
  Bool, true, false, str_instance, List, [], ◌∷◌, map, all_of, Str, str, ◌≡◌, ◌≢◌, refl, ap, ◌∙◌,
  arith, inl, inr, Bool-cases, str_beq,
}
use iot_dashboard_flutter.Exn.{returns}
use iot_dashboard_flutter.Json.{Json}
use iot_dashboard_flutter.Security.Crypto.{Crypto}
use iot_dashboard_flutter.Security.Access.{
  UserClaims, Permission, read, write, Role, admin, operator, viewer, can_access,
}
use iot_dashboard_flutter.Http.{HttpRequest, HttpResponse, error_response}
use iot_dashboard_flutter.Http.Router.{
  Middleware, Route, HttpRouter, run_chain, dispatch, add_route, add_middleware,
}
use iot_dashboard_flutter.Http.Router.Laws.{first_route, knows_path, answer, dispatch-answer}
use iot_dashboard_flutter.Api.Middleware.{inject_claims, refuse, pass, AuthState, auth_middleware}
use iot_dashboard_flutter.Api.Middleware.Laws.{
  IsAuthorized, inject_claims-IsAuthorized, auth_middleware_lem,
}
use iot_dashboard_flutter.Api.Application.{
  Handlers, new_router, add_guard, register_health, register_auth, register_devices,
  register_sensors, register_automation, register_metrics, register_http_routes,
}

-- What a guard asks for.
unfoldable pub grants : List (Str × Permission)
grants =
    (str "devices", read)
    ∷ (str "devices", write)
    ∷ (str "devices", write)
    ∷ (str "devices", write)
    ∷ (str "sensors", read)
    ∷ (str "automation", read)
    ∷ (str "automation", write)
    ∷ (str "automation", write)
    ∷ (str "metrics", read)
    ∷ []

abbrev may : Role → Str × Permission → Bool
may role (resource, permission) = can_access role resource permission

pub forbidden : HttpResponse → HttpResponse
forbidden res =
    error_response res 403 (str "Forbidden") (str "Insufficient permissions for this resource")

-- The request as the first `n` guards leave it.
unfoldable pub injected : UserClaims → List (Str × Permission) → HttpRequest → HttpRequest
injected claims [] req = req
injected claims (g ∷ gs) req = injected claims gs (inject_claims claims req)

module _ {S : Type 0} where
  first_route-inject_claims :
      (claims : UserClaims) (req : HttpRequest) (routes : List (Route S))
      → first_route (inject_claims claims req) routes ≡ first_route req routes
  unfolding first_route inject_claims
  first_route-inject_claims claims req [] = refl
  first_route-inject_claims claims req (route ∷ rest) =
      rw (first_route-inject_claims claims req rest)

  knows_path-inject_claims :
      (claims : UserClaims) (req : HttpRequest) (routes : List (Route S))
      → knows_path (inject_claims claims req) routes ≡ knows_path req routes
  unfolding knows_path inject_claims
  knows_path-inject_claims claims req [] = refl
  knows_path-inject_claims claims req (route ∷ rest) = rw (knows_path-inject_claims claims req rest)

  first_route-injected :
      (claims : UserClaims) (gs : List (Str × Permission)) (req : HttpRequest)
      (routes : List (Route S))
      → first_route (injected claims gs req) routes ≡ first_route req routes
  unfolding injected
  first_route-injected claims [] req routes = refl
  first_route-injected claims (g ∷ gs) req routes =
      first_route-injected claims gs (inject_claims claims req) routes
      ∙ first_route-inject_claims claims req routes

  knows_path-injected :
      (claims : UserClaims) (gs : List (Str × Permission)) (req : HttpRequest)
      (routes : List (Route S))
      → knows_path (injected claims gs req) routes ≡ knows_path req routes
  unfolding injected
  knows_path-injected claims [] req routes = refl
  knows_path-injected claims (g ∷ gs) req routes =
      knows_path-injected claims gs (inject_claims claims req) routes
      ∙ knows_path-inject_claims claims req routes

module _ (crypto : Crypto) (json : Json) {S : Type 0} (state : AuthState S) where
  guard_of : Str × Permission → Middleware S
  guard_of (resource, permission) = auth_middleware crypto json state resource permission

  run_chain-pass :
      (gs : List (Str × Permission)) (s : S) (req : HttpRequest) (res : HttpResponse)
      (claims : UserClaims)
      → IsAuthorized crypto json state s req claims
      → all_of (may claims.role) gs ≡ true
      → run_chain (map guard_of gs) s req res ≡ pass (injected claims gs req) res
  unfolding injected guard_of run_chain
  run_chain-pass [] s req res claims a h = refl
  run_chain-pass ((resource, permission) ∷ gs) s req res claims a h =
      elim (Bool-cases (can_access claims.role resource permission)) [
        | inl granted ↦
            rw
              (
                auth_middleware_lem crypto json state resource permission s req res claims a,
                granted,
                run_chain,
              )
              (run_chain-pass gs s (inject_claims claims req) res claims
                (inject_claims-IsAuthorized crypto json state s req claims a)
                (ground (arith, h, granted)))
        | inr denied ↦ absurd (ground (arith, h, denied))
      ]

  run_chain-refuse :
      (gs : List (Str × Permission)) (s : S) (req : HttpRequest) (res : HttpResponse)
      (claims : UserClaims)
      → IsAuthorized crypto json state s req claims
      → all_of (may claims.role) gs ≡ false
      → (r : HttpRequest) × run_chain (map guard_of gs) s req res ≡ refuse r (forbidden res)
  unfolding injected guard_of run_chain forbidden
  run_chain-refuse [] s req res claims a h = absurd (ground (arith, h))
  run_chain-refuse ((resource, permission) ∷ gs) s req res claims a h =
      elim (Bool-cases (can_access claims.role resource permission)) [
        | inl granted ↦
            let rest =
              run_chain-refuse gs s (inject_claims claims req) res claims
                (inject_claims-IsAuthorized crypto json state s req claims a)
                (ground (arith, h, granted)) in
            (
              rest.0,
              rw
                  (
                    auth_middleware_lem crypto json state resource permission s req res claims a,
                    granted,
                    run_chain,
                  )
                  rest.1,
            )
        | inr denied ↦ (
          req,
          rw (
            auth_middleware_lem crypto json state resource permission s req res claims a,
            denied,
            run_chain,
          ),
        )
      ]

  module _ (handlers : Handlers S) where
    router : HttpRouter S
    router = register_http_routes crypto json state handlers

    router-middlewares : router.middlewares ≡ map guard_of grants
    unfolding router register_http_routes new_router add_guard add_route add_middleware
        register_health register_auth register_devices register_sensors register_automation
        register_metrics grants guard_of
    router-middlewares = refl

    grants-viewer : all_of (may viewer) grants ≡ false
    unfolding grants can_access str str_beq
    grants-viewer = refl

    grants-others : (role : Role) → role ≢ viewer → all_of (may role) grants ≡ true
    unfolding grants can_access str str_beq
    grants-others admin h = refl
    grants-others operator h = refl
    grants-others viewer h = absurd (h refl)

    -- A request for any path that is not public, from a user with the role viewer and a valid token,
    -- is answered with 403 and changes nothing.
    pub dispatch-viewer :
        (s : S) (req : HttpRequest) (res : HttpResponse) (claims : UserClaims)
        → IsAuthorized crypto json state s req claims
        → claims.role ≡ viewer
        → dispatch (register_http_routes crypto json state handlers) s req res
          ≡ (s, returns (forbidden res))
    unfolding router
    dispatch-viewer s req res claims a h =
        let stopped = run_chain-refuse grants s req res claims a (rw (h) grants-viewer) in
        dispatch-answer router s req res _
          (ap (λ ms. run_chain ms s req res) router-middlewares ∙ stopped.1)

    pub dispatch-others :
        (s : S) (req : HttpRequest) (res : HttpResponse) (claims : UserClaims)
        → IsAuthorized crypto json state s req claims
        → claims.role ≢ viewer
        → let routes = (register_http_routes crypto json state handlers).routes in
          dispatch (register_http_routes crypto json state handlers) s req res
          ≡ answer
              (first_route req routes)
              (knows_path req routes)
              s
              (injected claims grants req)
              res
    unfolding router
    dispatch-others s req res claims a h =
        dispatch-answer router s req res _ (
          ap (λ ms. run_chain ms s req res) router-middlewares
          ∙ run_chain-pass grants s req res claims a (grants-others claims.role h))
        ∙ rw (
          first_route-injected claims grants req router.routes,
          knows_path-injected claims grants req router.routes,
        )
