-- ===== src/Access/Login/Owner.antt =====
-- create_platform_owner and get_login_requirements of modules/access/identity.py.
use Prim.Native.String.{String}
use io_tables.Common.{ℕ, Bool, true, false, Option, none, some, find, insert, given, is_empty, ◌==◌}
use io_tables.Actor.{AppScope, platform}
use io_tables.Database.{Db, User, Credential, PlatformRoleAssignment, in_use, is_in_use}
use io_tables.Errors.{validation_failed}
use io_tables.Session.{
  Exec, ◌>>=◌, ◌>>◌, pure, raise_if, query, execute, commit, uuid4, utc_now, case_option,
}
use io_tables.Security.Passwords.{hash_password}
use io_tables.Access.Login.Accounts.{
  LoginServices, required_role_of, normalize_username, load_platform_user, load_tenant_user,
}
use io_tables.Access.Login.FirstPassword.{insert_audit_event}

-- `BootstrapPlatformOwnerResult`
pub record BootstrapPlatformOwnerResult : Type 0 where
  pub user_id : ℕ
  pub username : String
  pub created : Bool

-- The assignment of the role that is in force.
unfoldable pub active_owner : Db → Option PlatformRoleAssignment
active_owner db = find (λ r. is_in_use r.status) db.platform_role_assignments

abbrev pub or_text : Option String → String → String
or_text none text = text
or_text (some found) text = found

abbrev pub username_of : Option User → Option String
username_of none = none
username_of (some u) = some u.username

abbrev pub new_owner : ℕ → String → ℕ → User
new_owner user_id normalized_username now = record {
  id = user_id;
  tenant_id = none;
  username = normalized_username;
  status = in_use;
  first_password_change_required = false;
  created_at = now;
  updated_at = now;
}

abbrev pub owner_credential : ℕ → String → ℕ → Credential
owner_credential user_id password_hash now = record {
  user_id = user_id;
  password_hash = password_hash;
  bootstrap_credential = false;
  changed_at = now;
}

abbrev pub owner_assignment : ℕ → ℕ → ℕ → PlatformRoleAssignment
owner_assignment id user_id now = record {
  id = id;
  user_id = user_id;
  status = in_use;
  created_at = now;
  updated_at = now;
}

-- The end of the block commits.
unfoldable pub existing_owner : String → PlatformRoleAssignment → Exec BootstrapPlatformOwnerResult
existing_owner normalized_username owner = do
  found ← query (λ db. find (λ u. u.id == owner.user_id) db.users)
  commit
  pure (record {
    user_id = owner.user_id;
    username = or_text (given (username_of found)) normalized_username;
    created = false;
  })

module _ (services : LoginServices) where
  unfoldable pub insert_owner : String → String → Exec BootstrapPlatformOwnerResult
  insert_owner normalized_username password = do
    user_id ← uuid4
    now ← utc_now
    execute
        (λ db. record db { users = insert (new_owner user_id normalized_username now) db.users })
    random ← uuid4
    execute (λ db. record db {
      credentials =
          insert (owner_credential user_id (hash_password services.passwords random password) now)
            db.credentials;
    })
    assignment_id ← uuid4
    execute (λ db. record db {
      platform_role_assignments =
          insert (owner_assignment assignment_id user_id now) db.platform_role_assignments;
    })
    insert_audit_event none user_id "platform_owner.created" "user" user_id "username"
        normalized_username now
    commit
    pure (record { user_id = user_id; username = normalized_username; created = true })

  unfoldable pub create_platform_owner : String → String → Exec BootstrapPlatformOwnerResult
  create_platform_owner username password = do
    raise_if (is_empty password) validation_failed
    owner ← query active_owner
    case_option owner (insert_owner (normalize_username services username) password)
        (existing_owner (normalize_username services username))

  abbrev pub must_change : Option User → Bool
  must_change none = false
  must_change (some u) = u.first_password_change_required

  -- Whether a first password is required; the status and totpRequired never differ.
  unfoldable pub get_login_requirements : AppScope → String → Option String → Exec Bool
  get_login_requirements platform username tenant_subdomain =
      query
        (λ db. must_change (load_platform_user services (normalize_username services username) db))
  get_login_requirements app_scope username tenant_subdomain =
      case_option (required_role_of app_scope) (pure false) (λ required_role. query (λ db.
        must_change (
          load_tenant_user services (normalize_username services username) tenant_subdomain
            required_role db)))
