-- ===== src/Security/Access.antt =====
-- src/security/access_control.cpp and .hpp, with the roles and claims of
-- src/core/interfaces/i_authentication_service.hpp.
pub mod Laws
use iot_dashboard_flutter.Common.{
  ℕ, Bool, true, false, ◌||◌, ◌==◌, str_instance, if◌then◌else◌, Str, str,
}

pub data Role : Type 0 where
  admin operator viewer : Role

pub record UserClaims : Type 0 where
  pub user_id : Str
  pub username : Str
  pub role : Role

pub record TokenPair : Type 0 where
  pub access_token : Str
  pub refresh_token : Str
  pub expires_in_seconds : ℕ

pub data Permission : Type 0 where
  read write delete admin : Permission

abbrev is_read : Permission → Bool
is_read read = true
is_read _ = false

abbrev is_read_or_write : Permission → Bool
is_read_or_write read = true
is_read_or_write write = true
is_read_or_write _ = false

unfoldable pub can_access : Role → Str → Permission → Bool
can_access admin resource permission = true
can_access operator resource permission =
    if resource == str "users" then false else is_read_or_write permission
can_access viewer resource permission =
    if resource == str "devices" || (resource == str "sensors" || resource == str "metrics")
    then is_read permission
    else false

unfoldable pub role_to_string : Role → Str
role_to_string admin = str "Admin"
role_to_string operator = str "Operator"
role_to_string viewer = str "Viewer"

unfoldable pub role_from_string : Str → Role
role_from_string s =
    if s == str "Admin" then admin else if s == str "Operator" then operator else viewer
