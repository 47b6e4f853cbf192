-- ===== src/Examples/Tokens.antt =====
-- Accounts, passwords and tokens.
mod Server
use iot_dashboard_flutter.Common.{
  All, ℕ, ◌+◌, ◌≡◌, ◌≢◌, refl, ap, subst, str_beq_iff, true, false, List, [], ◌∷◌, replicate,
  Option, none, some, Str, str, str_beq, str_instance, ◌==◌, if◌then◌else◌, arith, ◌↔◌,
}
use iot_dashboard_flutter.Common.Map.{lookup, contains}
use iot_dashboard_flutter.Common.Sets.{has}
use iot_dashboard_flutter.Common.Decimal.{to_string, stoul, stoul-to_string}
use iot_dashboard_flutter.Exn.{returns}
use iot_dashboard_flutter.Errors.{Result, ok, err, token_expired}
use iot_dashboard_flutter.Json.{Json, pos}
use iot_dashboard_flutter.Security.Base64.{base64_url_encode, base64_url_decode}
use iot_dashboard_flutter.Security.Base64.Alphabet.{url_safe}
use iot_dashboard_flutter.Security.Base64.Roundtrip.{base64_url_decode-encode}
use iot_dashboard_flutter.Security.Access.{UserClaims, TokenPair, operator, write, can_access}
use iot_dashboard_flutter.Security.Access.Laws.{Grants}
use iot_dashboard_flutter.Security.Password.{PasswordHasher, hash, verify, k_hash_bytes}
use iot_dashboard_flutter.Security.Password
use iot_dashboard_flutter.Security.Password.Laws.{verify-hash}
use iot_dashboard_flutter.Security.Jwt
use iot_dashboard_flutter.Security.Jwt.Laws.{verify-generate, verify-IsAuthentic, IsAuthentic}
use iot_dashboard_flutter.Security.Auth.{
  AuthenticationService, SecurityConfig, UserRecord, register_user, login, login_as, logout,
  refresh_token, validate_token, claims_of,
}
use iot_dashboard_flutter.Security.Auth.Users.{login-register_user}
use iot_dashboard_flutter.Security.Auth.Sessions.{
  validate_token-login, logout_for_ever, logout_other, refresh_token_iff, run, after, logs_out,
}
use iot_dashboard_flutter.Examples

abbrev three : List ℕ
three = 1 ∷ 2 ∷ 3 ∷ []

base64_url_decode-encode_example :
    (base64_url_decode (base64_url_encode three) ≡ three)
    × All (λ c. url_safe c ≡ true) (base64_url_encode three)
base64_url_decode-encode_example =
    base64_url_decode-encode three (omega arith, (omega arith, (omega arith, tt)))

stoul-to_string_example : stoul (to_string 100000) ≡ some 100000
stoul-to_string_example = stoul-to_string 100000 (omega arith)

abbrev salt : List ℕ
salt = replicate 16 7

abbrev hasher : PasswordHasher
hasher = record { iterations = 100000 }

result_or {ℓ} : {A : Type ℓ} → A → Result A → A
result_or default (err e) = default
result_or default (ok a) = a

stored : Str
unfolding hash
stored = result_or [] (Password.hash Examples.toy_crypto hasher (some salt) (str "secret"))

stored-eq : Password.hash Examples.toy_crypto hasher (some salt) (str "secret") ≡ ok stored
unfolding hash stored result_or
stored-eq = refl

verify-hash_example :
    (Password.verify Examples.toy_crypto (str "secret") stored ≡ true)
    × ((Password.verify Examples.toy_crypto (str "guess") stored ≡ true) ↔ (
        Examples.toy_crypto.pbkdf2 (str "guess") salt 100000 k_hash_bytes
        ≡ Examples.toy_crypto.pbkdf2 (str "secret") salt 100000 k_hash_bytes))
verify-hash_example =
    verify-hash Examples.toy_crypto hasher salt (str "secret") (str "guess") stored (omega arith)
      (Examples.replicate-IsByte 16 7 (omega arith)) refl stored-eq

abbrev claims : UserClaims
claims = record { user_id = str "u1"; username = str "ann"; role = operator }

known : Examples.Value
known = Examples.object (
    Examples.from_pairs (
      (str "sub", Examples.text (str "u1"))
      ∷ (str "username", Examples.text (str "ann"))
      ∷ (str "role", Examples.text (str "Operator"))
      ∷ (str "iat", Examples.integer (pos 1000))
      ∷ (str "exp", Examples.integer (pos (1000 + 3600)))
      ∷ []))

abbrev json : Json
json = Examples.toy_json known

writable : json.IsWritable (Jwt.payload Examples.toy_crypto json claims 1000 (1000 + 3600))
unfolding Jwt.payload Jwt.role_to_string known Examples.toy_json
writable = refl

token : Str
token = result_or [] (Jwt.generate Examples.toy_crypto json (str "key") 1000 claims 3600)

token-eq : Jwt.generate Examples.toy_crypto json (str "key") 1000 claims 3600 ≡ ok token
unfolding Jwt.generate token result_or
token-eq = refl

verify-generate_example :
    Jwt.verify Examples.toy_crypto json (str "key") 2000 token ≡ returns (ok claims)
verify-generate_example =
    verify-generate Examples.toy_crypto json (str "key") 1000 2000 3600 claims token writable
      token-eq

verify-IsAuthentic_example : IsAuthentic Examples.toy_crypto json (str "key") 2000 token claims
verify-IsAuthentic_example =
    verify-IsAuthentic Examples.toy_crypto json (str "key") 2000 token claims (
      verify-generate Examples.toy_crypto json (str "key") 1000 2000 3600 claims token writable
        token-eq)

abbrev config : SecurityConfig
config = record {
  jwt_secret = str "key";
  access_token_expiry = 3600;
  refresh_token_expiry = 2592000;
  pbkdf2_iterations = 100000;
}

abbrev service : AuthenticationService
service = record {
  config = config;
  users =
      (
        str "ann",
        record {
          user_id = str "u1";
          username = str "ann";
          password_hash = stored;
          role = operator;
        },
      )
      ∷ [];
  revoked_tokens = [];
}

accepted : Password.verify Examples.toy_crypto (str "secret") stored ≡ true
accepted =
    (verify-hash Examples.toy_crypto hasher salt (str "secret") (str "guess") stored (omega arith)
      (Examples.replicate-IsByte 16 7 (omega arith)) refl stored-eq).0

abbrev ann : UserRecord
ann = record { user_id = str "u1"; username = str "ann"; password_hash = stored; role = operator }

pair : TokenPair
pair =
    result_or (record { access_token = []; refresh_token = []; expires_in_seconds = 0 })
      (login Examples.toy_crypto json service 1000 1000 (str "ann") (str "secret"))

login-eq : login Examples.toy_crypto json service 1000 1000 (str "ann") (str "secret") ≡ ok pair
unfolding login login_as Jwt.generate lookup str str_beq pair result_or
login-eq = rw (accepted, login)

only_ann :
    (user : UserRecord)
    → lookup (str "ann") service.users ≡ some user
    → json.IsWritable (Jwt.payload Examples.toy_crypto json (claims_of user) 1000 (1000 + 3600))
unfolding lookup str str_beq
only_ann user found =
    subst
      (λ u. json.IsWritable (Jwt.payload Examples.toy_crypto json (claims_of u) 1000 (1000 + 3600)))
      (ap user_or found) writable
  where
    user_or : Option UserRecord → UserRecord
    user_or none = ann
    user_or (some u) = u

validate_token-login_example :
    (user : UserRecord) × (lookup (str "ann") service.users ≡ some user)
    × (Password.verify Examples.toy_crypto (str "secret") user.password_hash ≡ true)
    × (validate_token Examples.toy_crypto json service 2000 pair.access_token
        ≡ returns (ok (claims_of user)))
unfolding has
validate_token-login_example =
    validate_token-login Examples.toy_crypto json service 1000 1000 2000 (str "ann") (str "secret")
      pair only_ann login-eq refl

logout_for_ever_example :
    (validate_token Examples.toy_crypto json
        (run Examples.toy_crypto json (after Examples.toy_crypto json service (logs_out token)) [])
        2000
        token
      ≡ returns (err token_expired))
    × (refresh_token Examples.toy_crypto json
          (run Examples.toy_crypto json
            (after Examples.toy_crypto json service (logs_out token))
            [])
          2000
          2000
          token
        ≢ returns (ok pair))
logout_for_ever_example = logout_for_ever Examples.toy_crypto json service token [] 2000 2000 pair

a_b : str_beq (str "a") (str "b") ≡ false
unfolding str_beq str
a_b = refl

logout_other_example :
    (validate_token Examples.toy_crypto json
        (logout Examples.toy_crypto json service (str "a")).0
        2000
        (str "b")
      ≡ validate_token Examples.toy_crypto json service 2000 (str "b"))
    × (refresh_token Examples.toy_crypto json
          (logout Examples.toy_crypto json service (str "a")).0
          2000
          2000
          (str "b")
        ≡ refresh_token Examples.toy_crypto json service 2000 2000 (str "b"))
logout_other_example =
    logout_other Examples.toy_crypto json service (str "a") (str "b") 2000 2000
      (λ e. cc ((str_beq_iff (str "a") (str "b")).1 e, a_b))

refresh_token_iff_example :
    ((issued : TokenPair) × (refresh_token Examples.toy_crypto json service 2000 2000 token
        ≡ returns (ok issued)))
    ↔ ((owner : UserClaims) × (validate_token Examples.toy_crypto json service 2000 token
          ≡ returns (ok owner)))
refresh_token_iff_example = refresh_token_iff Examples.toy_crypto json service 2000 2000 token

abbrev empty_service : AuthenticationService
empty_service = record { config = config; users = []; revoked_tokens = [] }

registered :
    (register_user Examples.toy_crypto json empty_service
      (some salt)
      (str "u1")
      (str "ann")
      (str "secret")
      operator).1
    ≡ ok tt
unfolding register_user contains
registered = rw (stored-eq, register_user)

login-register_user_example :
    ((issued : TokenPair) × (login Examples.toy_crypto json
          (register_user Examples.toy_crypto json empty_service
            (some salt)
            (str "u1")
            (str "ann")
            (str "secret")
            operator).0
          1000
          1000
          (str "ann")
          (str "secret")
        ≡ ok issued))
    × (lookup
          (str "bob")
          (register_user Examples.toy_crypto json empty_service
            (some salt)
            (str "u1")
            (str "ann")
            (str "secret")
            operator).0.users
        ≡ (if str "ann" == str "bob"
            then lookup
                (str "ann")
                (register_user Examples.toy_crypto json empty_service
                  (some salt)
                  (str "u1")
                  (str "ann")
                  (str "secret")
                  operator).0.users
            else lookup (str "bob") empty_service.users))
login-register_user_example =
    login-register_user Examples.toy_crypto json empty_service salt (str "u1") (str "ann")
      (str "secret") (str "bob") operator 1000 1000 (omega arith)
      (Examples.replicate-IsByte 16 7 (omega arith)) refl registered
