-- ===== src/Security/Access/Laws.antt =====
-- The access table as a relation, and the text form of a role.
use iot_dashboard_flutter.Common.{
  true, str_instance, Str, str, str_beq, str_beq_iff, arith, ◌≡◌, refl, ◌≢◌, ◌⊎◌, ◌↔◌,
}
use iot_dashboard_flutter.Security.Access.{
  Role, admin, operator, viewer, Permission, read, write, can_access, role_to_string,
  role_from_string,
}

-- Who may do what, from the comment on the class: administrators everything; operators read and
-- write all but users; viewers read devices, sensors and metrics.
pub data Grants : Role → Str → Permission → Type 0 where
  by_admin : (resource : Str) (permission : Permission) → Grants admin resource permission
  by_operator_read : (resource : Str) → resource ≢ str "users" → Grants operator resource read
  by_operator_write : (resource : Str) → resource ≢ str "users" → Grants operator resource write
  by_viewer :
      (resource : Str)
      → (resource ≡ str "devices") ⊎ (resource ≡ str "sensors") ⊎ (resource ≡ str "metrics")
      → Grants viewer resource read

can_access_sound :
    (role : Role) (resource : Str) (permission : Permission)
    → can_access role resource permission ≡ true
    → Grants role resource permission
unfolding can_access
can_access_sound admin resource permission h = by_admin resource permission
can_access_sound operator resource read h =
    by_operator_read resource (λ e. ground (arith, str_beq_iff resource (str "users")))
can_access_sound operator resource write h =
    by_operator_write resource (λ e. ground (arith, str_beq_iff resource (str "users")))
can_access_sound operator resource _ h = ground arith
can_access_sound viewer resource read h = by_viewer resource (
    ground (
      arith,
      str_beq_iff resource (str "devices"),
      str_beq_iff resource (str "sensors"),
      str_beq_iff resource (str "metrics"),
    ))
can_access_sound viewer resource _ h = ground arith

can_access_complete :
    {role : Role} {resource : Str} {permission : Permission}
    → Grants role resource permission
    → can_access role resource permission ≡ true
unfolding can_access
can_access_complete (by_admin resource permission) = refl
can_access_complete (by_operator_read resource h) =
    ground (arith, str_beq_iff resource (str "users"))
can_access_complete (by_operator_write resource h) =
    ground (arith, str_beq_iff resource (str "users"))
can_access_complete (by_viewer resource h) = ground (
  arith,
  str_beq_iff resource (str "devices"),
  str_beq_iff resource (str "sensors"),
  str_beq_iff resource (str "metrics"),
)

-- `CanAccess` answers true exactly where the documented table grants the permission.
can_access_iff :
    (role : Role) (resource : Str) (permission : Permission)
    → (can_access role resource permission ≡ true) ↔ Grants role resource permission
can_access_iff role resource permission =
    (can_access_sound role resource permission, can_access_complete)

-- The text form of a role is read back as that role.
pub role_from_string-to_string : (role : Role) → role_from_string (role_to_string role) ≡ role
unfolding role_from_string role_to_string str str_beq
role_from_string-to_string admin = refl
role_from_string-to_string operator = refl
role_from_string-to_string viewer = refl
