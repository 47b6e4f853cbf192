-- ===== src/Api/Middleware/Laws.antt =====
-- What the middleware lets pass, and chains of it.
use iot_dashboard_flutter.Common.{
  false, str_instance, str_beq, str_beq_iff, if◌then◌else◌, ◌++◌, map, is_empty, drop, Str, str,
  ◌≡◌, ◌≢◌, refl, ◌∙◌, inl, inr, Bool-cases,
}
use iot_dashboard_flutter.Common.Map.{lookup-insert_ne}
use iot_dashboard_flutter.Common.Search.{starts_with-append}
use iot_dashboard_flutter.Errors.{ok}
use iot_dashboard_flutter.Exn.{returns}
use iot_dashboard_flutter.Json.{Json}
use iot_dashboard_flutter.Security.Crypto.{Crypto}
use iot_dashboard_flutter.Security.Access.{UserClaims, Permission, can_access}
use iot_dashboard_flutter.Security.Auth.{validate_token}
use iot_dashboard_flutter.Http.{HttpRequest, HttpResponse, get_header, error_response, tolower}
use iot_dashboard_flutter.Api.Middleware.{
  is_public_path, inject_claims, refuse, pass, AuthState, with_claims, auth_middleware,
}

-- The headers that the middleware adds leave the authorization as it was.
pub inject_claims-authorization :
    (claims : UserClaims) (req : HttpRequest)
    → get_header (inject_claims claims req) (str "authorization")
      ≡ get_header req (str "authorization")
unfolding get_header inject_claims str_beq str tolower
inject_claims-authorization claims req =
    let key : Str = map tolower (str "authorization") in
    rw (
      lookup-insert_ne (str "x-role") key _ _ (other (str "x-role") refl),
      lookup-insert_ne (str "x-username") key _ _ (other (str "x-username") refl),
      lookup-insert_ne (str "x-user-id") key _ _ (other (str "x-user-id") refl),
    )
  where
    other :
        (name : Str)
        → str_beq name (map tolower (str "authorization")) ≡ false
        → name ≢ map tolower (str "authorization")
    other name differs e = cc (differs, (str_beq_iff name _).1 e)

pub bearer-is_empty : (t : Str) → is_empty (str "Bearer " ++ t) ≡ false
unfolding str
bearer-is_empty t = refl

pub bearer-drop : (t : Str) → drop 7 (str "Bearer " ++ t) ≡ t
unfolding str
bearer-drop t = refl

module _ (crypto : Crypto) (json : Json) {S : Type 0} (state : AuthState S) where
  -- A request for a protected path with a valid bearer token.
  pub record IsAuthorized (s : S) (req : HttpRequest) (claims : UserClaims) : Type 0 where
    pub protected : is_public_path req.path ≡ false
    pub token : Str
    pub bearer : get_header req (str "authorization") ≡ str "Bearer " ++ token
    pub valid :
        validate_token crypto json (state.service s) (state.clock s) token ≡ returns (ok claims)

  pub inject_claims-IsAuthorized :
      (s : S) (req : HttpRequest) (claims : UserClaims)
      → IsAuthorized s req claims
      → IsAuthorized s (inject_claims claims req) claims
  inject_claims-IsAuthorized s req claims a = record {
    protected = unfold inject_claims in a.protected;
    token = a.token;
    bearer = inject_claims-authorization claims req ∙ a.bearer;
    valid = a.valid;
  }

  pub auth_middleware_lem :
      (resource : Str) (permission : Permission) (s : S) (req : HttpRequest) (res : HttpResponse)
      (claims : UserClaims)
      → IsAuthorized s req claims
      → auth_middleware crypto json state resource permission s req res ≡ (
          if can_access claims.role resource permission
          then pass (inject_claims claims req) res
          else refuse req (
              error_response res 403
                (str "Forbidden")
                (str "Insufficient permissions for this resource")))
  unfolding auth_middleware with_claims
  auth_middleware_lem resource permission s req res claims a =
      rw
        (
          a.protected,
          a.bearer,
          bearer-is_empty a.token,
          bearer-drop a.token,
          starts_with-append (str "Bearer ") a.token,
          a.valid,
          auth_middleware,
          with_claims,
        )
        (elim (Bool-cases (can_access claims.role resource permission)) [
          | inl may ↦ rw (may)
          | inr may_not ↦ rw (may_not)
        ])
