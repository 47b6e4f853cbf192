-- ===== src/Security/Auth.antt =====
-- src/security/authentication_service.cpp and .hpp: users, tokens and the revocation list. Each
-- method runs under the lock, so it is one step on the state. Logging is left out.
pub mod Sessions
pub mod Users
use iot_dashboard_flutter.Common.{
  ℕ, ◌%◌, ◌^◌, Bool, true, false, str_instance, if◌then◌else◌, List, [], Option, none, some, Str,
}
use iot_dashboard_flutter.Common.Map.{lookup, insert, contains}
use iot_dashboard_flutter.Common.Sets.{has, add}
use iot_dashboard_flutter.Errors.{
  Result, ok, err, ◌>>=◌, invalid_input, authentication_failed, token_expired,
}
use iot_dashboard_flutter.Exn.{Exn, returns, throws}
use iot_dashboard_flutter.Json.{Json}
use iot_dashboard_flutter.Security.Crypto.{Crypto}
use iot_dashboard_flutter.Security.Password.{PasswordHasher, hash}
use iot_dashboard_flutter.Security.Password
use iot_dashboard_flutter.Security.Access.{Role, UserClaims, TokenPair}
use iot_dashboard_flutter.Security.Jwt.{generate}
use iot_dashboard_flutter.Security.Jwt

pub record SecurityConfig : Type 0 where
  pub jwt_secret : Str
  pub access_token_expiry : ℕ
  pub refresh_token_expiry : ℕ
  pub pbkdf2_iterations : ℕ

pub record UserRecord : Type 0 where
  pub user_id : Str
  pub username : Str
  pub password_hash : Str
  pub role : Role

pub record AuthenticationService : Type 0 where
  pub config : SecurityConfig
  pub open config use *
  pub users : List (Str × UserRecord)
  pub revoked_tokens : List Str

unfoldable pub new_service : SecurityConfig → AuthenticationService
new_service config = record { config = config; users = []; revoked_tokens = [] }

abbrev pub hasher_of : AuthenticationService → PasswordHasher
hasher_of s = record { iterations = s.pbkdf2_iterations }

abbrev pub claims_of : UserRecord → UserClaims
claims_of u = record { user_id = u.user_id; username = u.username; role = u.role }

-- `static_cast< uint32_t >( m_accessTokenExpiry.count() )`
abbrev pub expires_in : AuthenticationService → ℕ
expires_in s = s.access_token_expiry % 2 ^ 32

module _ (crypto : Crypto) (json : Json) where
  -- The users are searched after the password was hashed, as in the source.
  unfoldable pub register_user :
      AuthenticationService
      → Option (List ℕ)
      → Str
      → Str
      → Str
      → Role
      → AuthenticationService × Result (Unit {0})
  register_user s salt user_id username password role =
      elim (hash crypto (hasher_of s) salt password) [
        | err e ↦ (s, err e)
        | ok stored ↦ if contains username s.users then (s, err invalid_input) else (
          record s {
            users =
                insert username
                  (record {
                    user_id = user_id;
                    username = username;
                    password_hash = stored;
                    role = role;
                  })
                  s.users;
          },
          ok tt,
        )
      ]

  -- The clock is read once for each of the two tokens.
  unfoldable pub login_as : AuthenticationService → ℕ → ℕ → UserRecord → Result TokenPair
  login_as s now now' user = do
    access ← generate crypto json s.jwt_secret now (claims_of user) s.access_token_expiry
    refresh ← generate crypto json s.jwt_secret now' (claims_of user) s.refresh_token_expiry
    ok (record {
      access_token = access;
      refresh_token = refresh;
      expires_in_seconds = expires_in s;
    })

  unfoldable pub login : AuthenticationService → ℕ → ℕ → Str → Str → Result TokenPair
  unfolding login_as
  login s now now' username password = elim (lookup username s.users) [
    | none ↦ err authentication_failed
    | some user ↦
        if Password.verify crypto password user.password_hash
        then login_as s now now' user
        else err authentication_failed
  ]

  -- The new pair has no refresh token.
  unfoldable pub refresh_as : AuthenticationService → ℕ → UserClaims → Result TokenPair
  refresh_as s now claims = do
    access ← generate crypto json s.jwt_secret now claims s.access_token_expiry
    ok (record { access_token = access; refresh_token = []; expires_in_seconds = expires_in s })

  -- `now` is when the token is verified, `now'` when the new one is made.
  unfoldable pub refresh_token : AuthenticationService → ℕ → ℕ → Str → Exn (Result TokenPair)
  unfolding refresh_as
  refresh_token s now now' token = elim (Jwt.verify crypto json s.jwt_secret now token) [
    | throws ↦ throws
    | returns (err e) ↦ returns (err e)
    | returns (ok claims) ↦
        if has token s.revoked_tokens
        then returns (err token_expired)
        else returns (refresh_as s now' claims)
  ]

  unfoldable pub logout : AuthenticationService → Str → AuthenticationService × Result (Unit {0})
  logout s token = (record s { revoked_tokens = add token s.revoked_tokens }, ok tt)

  unfoldable pub validate_token : AuthenticationService → ℕ → Str → Exn (Result UserClaims)
  validate_token s now token =
      if has token s.revoked_tokens
      then returns (err token_expired)
      else Jwt.verify crypto json s.jwt_secret now token
