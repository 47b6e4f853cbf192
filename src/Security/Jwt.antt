-- ===== src/Security/Jwt.antt =====
-- src/security/jwt_handler.cpp and .hpp: signed tokens. The time of the system clock, in seconds, is
-- an argument. Times are numbers that do not overflow; `exp` is read as a signed integer.
pub mod Split
pub mod Laws
use iot_dashboard_flutter.Common.{
  ℕ, ◌+◌, ◌-◌, Bool, true, false, not, ◌||◌, ◌==◌, nat_eq, str_instance, ltb, if◌then◌else◌, List,
  [], ◌∷◌, ◌++◌, length, take, drop, Option, none, some, Str, str,
}
use Prim.Native.Nat.{min}
use iot_dashboard_flutter.Common.Search.{find_byte, find_byte_from}
use iot_dashboard_flutter.Errors.{Result, ok, err, authorization_failed, token_expired}
use iot_dashboard_flutter.Exn.{Exn, returns, throws, ◌>>=◌}
use iot_dashboard_flutter.Json.{Json, ℤ, pos, negsuc, value_text, value_integer}
use iot_dashboard_flutter.Security.Crypto.{Crypto}
use iot_dashboard_flutter.Security.Access.{Role, admin, operator, viewer, UserClaims}
use iot_dashboard_flutter.Security.Base64.{base64_url_encode, base64_url_decode}

-- The file has its own copies of these two.
unfoldable pub role_to_string : Role → Str
role_to_string admin = str "Admin"
role_to_string operator = str "Operator"
role_to_string viewer = str "Viewer"

unfoldable pub role_from_string : Str → Role
role_from_string s =
    if s == str "Admin" then admin else if s == str "Operator" then operator else viewer

-- `now > exp`
unfoldable pub has_expired : ℕ → ℤ → Bool
has_expired now (pos exp) = ltb exp now
has_expired now (negsuc n) = true

-- `CRYPTO_memcmp` over the shorter size finds a difference, or the sizes differ.
unfoldable pub signatures_differ : Str → Str → Bool
signatures_differ expected given =
    let size = min (length expected) (length given) in
    not (take size expected == take size given) || not (length expected == length given)

module _ (crypto : Crypto) (json : Json) where
  open json use {Value, text, integer, object, dump, parse}

  unfoldable pub sign : Str → Str → List ℕ
  sign secret input = crypto.hmac secret input

  unfoldable pub header : Value
  header = object ((str "alg", text (str "HS256")) ∷ (str "typ", text (str "JWT")) ∷ [])

  unfoldable pub payload : UserClaims → ℕ → ℕ → Value
  payload claims iat exp = object (
      (str "sub", text claims.user_id)
      ∷ (str "username", text claims.username)
      ∷ (str "role", text (role_to_string claims.role))
      ∷ (str "iat", integer (pos iat))
      ∷ (str "exp", integer (pos exp))
      ∷ [])

  unfoldable pub signed : Str → Str → Str
  signed secret signing_input =
      signing_input ++ b'.' ∷ base64_url_encode (sign secret signing_input)

  unfoldable pub generate : Str → ℕ → UserClaims → ℕ → Result Str
  generate secret now claims expiry =
      let h_encoded = base64_url_encode (dump header) in
      let p_encoded = base64_url_encode (dump (payload claims now (now + expiry))) in
      ok (signed secret (h_encoded ++ b'.' ∷ p_encoded))

  unfoldable pub read_claims : Value → Exn (Result UserClaims)
  read_claims payload = do
    user_id ← value_text json payload (str "sub") []
    username ← value_text json payload (str "username") []
    role ← value_text json payload (str "role") (str "Viewer")
    returns (ok (record { user_id = user_id; username = username; role = role_from_string role }))

  -- The payload is parsed, and its claims are read unless it has expired.
  unfoldable pub check_payload : ℕ → Str → Exn (Result UserClaims)
  check_payload now payload_json = elim (parse payload_json) [
    | none ↦ returns (err authorization_failed)
    | some payload ↦ value_integer json payload (str "exp") (pos 0) >>= λ exp.
        if has_expired now exp then returns (err token_expired) else read_claims payload
  ]

  unfoldable pub check_signature : Str → ℕ → Str → ℕ → ℕ → Exn (Result UserClaims)
  check_signature secret now token d1 d2 =
      if signatures_differ (base64_url_encode (sign secret (take d2 token))) (drop (d2 + 1) token)
      then returns (err authorization_failed)
      else check_payload now (base64_url_decode (take (d2 - d1 - 1) (drop (d1 + 1) token)))

  unfoldable pub verify : Str → ℕ → Str → Exn (Result UserClaims)
  verify secret now token = elim (find_byte b'.' token) [
    | none ↦ returns (err authorization_failed)
    | some d1 ↦ elim (find_byte_from b'.' token (d1 + 1)) [
      | none ↦ returns (err authorization_failed)
      | some d2 ↦ check_signature secret now token d1 d2
    ]
  ]
