-- ===== src/Errors.antt =====
-- src/common/error.hpp and src/common/error.cpp: error codes, their messages, and `Result`.
use iot_dashboard_flutter.Common.{ℕ, Str, str, ◌≡◌, refl, ◌⊎◌, inl, inr}

pub data Error : Type 0 where
  success : Error
  invalid_input invalid_config file_not_found internal_error : Error
  device_not_found device_offline connection_failed device_timeout : Error
  database_error data_not_found data_corrupted : Error
  protocol_error mqtt_error modbus_error opcua_error : Error
  authentication_failed authorization_failed token_expired : Error
  network_error timeout connection_closed : Error

-- The values of the enumeration.
unfoldable pub error_value : Error → ℕ
error_value success = 0
error_value invalid_input = 100
error_value invalid_config = 101
error_value file_not_found = 102
error_value internal_error = 103
error_value device_not_found = 200
error_value device_offline = 201
error_value connection_failed = 202
error_value device_timeout = 203
error_value database_error = 300
error_value data_not_found = 301
error_value data_corrupted = 302
error_value protocol_error = 400
error_value mqtt_error = 401
error_value modbus_error = 402
error_value opcua_error = 403
error_value authentication_failed = 500
error_value authorization_failed = 501
error_value token_expired = 502
error_value network_error = 600
error_value timeout = 601
error_value connection_closed = 602

-- `std::expected< T, Error >`
pub data Result {ℓ} (A : Type ℓ) : Type ℓ where
  ok : A → Result A
  err : Error → Result A

-- A chain of calls, each with an early return of its error.
infixl 5 ◌>>=◌
abbrev pub ◌>>=◌ {ℓ} : {X Y : Type ℓ} → Result X → (X → Result Y) → Result Y
err code >>= next = err code
ok value >>= next = next value

-- `ErrorCategory::message`
unfoldable pub message : Error → Str
message success = str "success"
message invalid_input = str "invalid input"
message invalid_config = str "invalid configuration"
message file_not_found = str "file not found"
message internal_error = str "internal error"
message device_not_found = str "device not found"
message device_offline = str "device offline"
message connection_failed = str "connection failed"
message device_timeout = str "device timeout"
message database_error = str "database error"
message data_not_found = str "data not found"
message data_corrupted = str "data corrupted"
message protocol_error = str "protocol error"
message mqtt_error = str "MQTT error"
message modbus_error = str "Modbus error"
message opcua_error = str "OPC UA error"
message authentication_failed = str "authentication failed"
message authorization_failed = str "authorization failed"
message token_expired = str "token expired"
message network_error = str "network error"
message timeout = str "timeout"
message connection_closed = str "connection closed"

pub Result-cases {ℓ} :
    {A : Type ℓ} (r : Result A) → ((e : Error) × (r ≡ err e)) ⊎ ((a : A) × (r ≡ ok a))
Result-cases (ok a) = inr (a, refl)
Result-cases (err e) = inl (e, refl)
