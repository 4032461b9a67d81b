-- ===== src/Access/Login/Accounts.antt =====
-- What the service calls, its tables of roles and purposes, and how it finds an account.
use io_tables.Common.{
  ℕ, String, Bool, false, ◌&&◌, Option, none, some, find, any, join, is_none, str_eq, strip, ◌==◌,
}
use io_tables.Actor.{
  AppScope, platform, tenant, cashier_app, station, service, StaffRole, same_role, tenant_admin,
  cashier, station_staff, service_staff,
}
use io_tables.Database.{
  Db, Tenant, User, Credential, is_in_use, is_granted, is_tenant_active, OtpPurpose,
  tenant_admin_first_password, cashier_first_password, station_staff_first_password,
  service_staff_first_password,
}
use io_tables.Security.Passwords.{PasswordServices}
use io_tables.Access.Otp.Codes.{OtpServices}

-- The JSON object of a setup token.
pub record SetupPayload : Type 0 where
  pub user_id : ℕ
  pub tenant_id : Option ℕ
  pub app_scope : AppScope
  pub purpose : String
  pub expires_at : ℕ

-- What the service calls: a random token by its random value, the SHA-256 of a session token,
-- str.lower and lower() of the database, and Fernet under the secret key over the JSON of a setup
-- token, where `none` is what does not decrypt to such an object.
pub record LoginServices : Type 0 where
  pub passwords : PasswordServices
  pub codes : OtpServices
  pub token_urlsafe : ℕ → String
  pub hash_session_token : String → String
  pub lower : String → String
  pub sql_lower : String → String
  pub encrypt : SetupPayload → String
  pub decrypt : String → Option SetupPayload

abbrev pub session_ttl : ℕ
session_ttl = 28800000000

abbrev pub first_password_setup_ttl : ℕ
first_password_setup_ttl = 900000000

abbrev pub first_password_purpose : String
first_password_purpose = "first_password"

-- `APP_SCOPE_REQUIRED_ROLES`
abbrev pub required_role_of : AppScope → Option StaffRole
required_role_of platform = none
required_role_of tenant = some tenant_admin
required_role_of cashier_app = some cashier
required_role_of station = some station_staff
required_role_of service = some service_staff

-- `FIRST_PASSWORD_OTP_PURPOSES`
abbrev pub otp_purpose_of : AppScope → Option OtpPurpose
otp_purpose_of platform = none
otp_purpose_of tenant = some tenant_admin_first_password
otp_purpose_of cashier_app = some cashier_first_password
otp_purpose_of station = some station_staff_first_password
otp_purpose_of service = some service_staff_first_password

-- `normalize_username`
abbrev pub normalize_username : LoginServices → String → String
normalize_username services username = services.lower (strip username)

-- `users.c.tenant_id == tenant_id`
abbrev pub in_tenant : ℕ → Option ℕ → Bool
in_tenant tenant_id none = false
in_tenant tenant_id (some t) = t == tenant_id

abbrev pub is_owner : User → Db → Bool
is_owner u db = any (λ r. (r.user_id == u.id) && is_in_use r.status) db.platform_role_assignments

-- `_load_platform_user`
unfoldable pub load_platform_user : LoginServices → String → Db → Option User
load_platform_user services username db =
    find
      (λ u.
        is_none u.tenant_id
        && str_eq (services.sql_lower u.username) username
        && is_in_use u.status
        && is_owner u db)
      db.users

-- An active role of the user at the tenant.
abbrev pub has_assignment : ℕ → ℕ → StaffRole → Db → Bool
has_assignment tenant_id user_id role db =
    any
      (λ a.
        (a.user_id == user_id)
        && (a.tenant_id == tenant_id)
        && same_role a.role role
        && is_granted a.status)
      db.staff_role_assignments

abbrev pub is_staff : LoginServices → String → StaffRole → User → Db → Bool
is_staff services tenant_subdomain role u db =
    any
      (λ t.
        in_tenant t.id u.tenant_id
        && str_eq (services.sql_lower t.subdomain) (normalize_username services tenant_subdomain)
        && is_tenant_active t.status
        && any (λ p. (p.user_id == u.id) && is_in_use p.status) db.staff_profiles
        && has_assignment t.id u.id role db)
      db.tenants

-- `_load_tenant_user`
unfoldable pub load_tenant_user :
    LoginServices → String → Option String → StaffRole → Db → Option User
load_tenant_user services username none role db = none
load_tenant_user services username (some tenant_subdomain) role db =
    find
      (λ u.
        str_eq (services.sql_lower u.username) username
        && is_in_use u.status
        && is_staff services tenant_subdomain role u db)
      db.users

unfoldable pub load_credential : ℕ → Db → Option Credential
load_credential user_id db = find (λ c. c.user_id == user_id) db.credentials

-- The columns that `_load_tenant_setup_user` selects and the service reads.
pub record SetupUser : Type 0 where
  pub id : ℕ
  pub tenant_id : ℕ
  pub first_password_change_required : Bool
  pub bootstrap_credential : Bool
  pub tenant_gsm : String

abbrev pub is_setup_user : ℕ → ℕ → StaffRole → Db → (User × Tenant) × Credential → Bool
is_setup_user user_id tenant_id role db ((u, t), c) =
    (u.id == user_id)
    && in_tenant tenant_id u.tenant_id
    && is_in_use u.status
    && (t.id == tenant_id)
    && is_tenant_active t.status
    && any (λ p. (p.user_id == u.id) && (p.tenant_id == tenant_id) && is_in_use p.status)
        db.staff_profiles
    && has_assignment tenant_id u.id role db

abbrev pub setup_user : ℕ → (User × Tenant) × Credential → SetupUser
setup_user tenant_id ((u, t), c) = record {
  id = u.id;
  tenant_id = tenant_id;
  first_password_change_required = u.first_password_change_required;
  bootstrap_credential = c.bootstrap_credential;
  tenant_gsm = t.gsm_number;
}

-- `_load_tenant_setup_user`
unfoldable pub load_tenant_setup_user : ℕ → Option ℕ → StaffRole → Db → Option SetupUser
load_tenant_setup_user user_id none role db = none
load_tenant_setup_user user_id (some tenant_id) role db =
    elim (find (is_setup_user user_id tenant_id role db) (
      join (λ ut c. c.user_id == ut.0.id)
        (join (λ u t. in_tenant t.id u.tenant_id) db.users db.tenants) db.credentials)) [
          | none ↦ none
          | some row ↦ some (setup_user tenant_id row)
        ]
