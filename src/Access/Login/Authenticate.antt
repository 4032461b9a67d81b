-- ===== src/Access/Login/Authenticate.antt =====
-- IdentityAccessService.authenticate of modules/access/identity.py.
use io_tables.Common.{ℕ, ◌+◌, String, Bool, true, not, Option, none, some, if◌then◌else◌}
use io_tables.Actor.{AppScope, platform, StaffRole}
use io_tables.Database.{User, Credential}
use io_tables.Errors.{invalid_credentials, wrong_app_scope, unexpected_error}
use io_tables.Session.{Exec, ◌>>=◌, ◌>>◌, pure, raise_if, or_raise, query, utc_now}
use io_tables.Security.Passwords.{verify_password}
use io_tables.Access.Login.Accounts.{
  LoginServices, required_role_of, first_password_setup_ttl, first_password_purpose,
  normalize_username, load_platform_user, load_tenant_user, load_credential,
}
use io_tables.Access.Login.Sessions.{
  LoginResult, first_password_required, create_tenant_session, create_platform_session,
}

-- A login that only lets the password be changed.
abbrev pub change_required : Option String → LoginResult
change_required setup_token = record {
  status = first_password_required;
  actor = none;
  session_token = none;
  expires_at = none;
  setup_token = setup_token;
}

abbrev pub is_wrong : LoginServices → String → Option Credential → Bool
is_wrong services password none = true
is_wrong services password (some c) =
    not (verify_password services.passwords password c.password_hash)

module _ (services : LoginServices) where
  unfoldable pub check_password : String → User → Exec (Unit {0})
  check_password password u = do
    credential_row ← query (load_credential u.id)
    raise_if (is_wrong services password credential_row) invalid_credentials

  -- `_validate_platform_password`
  unfoldable pub validate_platform_password : String → String → Exec User
  validate_platform_password username password = do
    found ← query (load_platform_user services (normalize_username services username))
    user_row ← or_raise found invalid_credentials
    check_password password user_row
    pure user_row

  unfoldable pub authenticate_platform : String → String → Exec LoginResult
  authenticate_platform username password = do
    user_row ← validate_platform_password username password
    (if user_row.first_password_change_required
        then pure (change_required none)
        else create_platform_session services user_row.id)

  -- `_issue_first_password_setup_token`
  unfoldable pub issue_setup_token : ℕ → ℕ → AppScope → Exec String
  issue_setup_token user_id tenant_id app_scope = do
    now ← utc_now
    pure (
        services.encrypt (record {
          user_id = user_id;
          tenant_id = some tenant_id;
          app_scope = app_scope;
          purpose = first_password_purpose;
          expires_at = now + first_password_setup_ttl;
        }))

  unfoldable pub finish_login : User → ℕ → AppScope → StaffRole → Exec LoginResult
  finish_login u tenant_id app_scope required_role =
      if u.first_password_change_required
      then (issue_setup_token u.id tenant_id app_scope >>= λ setup_token.
          pure (change_required (some setup_token)))
      else create_tenant_session services u.id tenant_id app_scope required_role

  -- A user of a tenant has its id in its row.
  unfoldable pub authenticate_tenant_user :
      String → String → Option String → AppScope → StaffRole → Exec LoginResult
  authenticate_tenant_user username password tenant_subdomain app_scope required_role = do
    found ← query (
        load_tenant_user services (normalize_username services username) tenant_subdomain
          required_role)
    user_row ← or_raise found invalid_credentials
    check_password password user_row
    tenant_id ← or_raise user_row.tenant_id unexpected_error
    finish_login user_row tenant_id app_scope required_role

  unfoldable pub authenticate : AppScope → String → String → Option String → Exec LoginResult
  authenticate platform username password tenant_subdomain = authenticate_platform username password
  authenticate app_scope username password tenant_subdomain = do
    required_role ← or_raise (required_role_of app_scope) wrong_app_scope
    authenticate_tenant_user username password tenant_subdomain app_scope required_role
