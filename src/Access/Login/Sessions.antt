-- ===== src/Access/Login/Sessions.antt =====
-- Login sessions: how one starts and ends (modules/access/identity.py), and who a token stands for
-- (DatabaseSessionResolver of security/session.py).
use io_tables.Common.{
  ℕ, ◌+◌, String, Bool, false, ◌&&◌, Option, none, some, List, [], ◌∷◌, find, select, update,
  insert, map, join, any, is_none, ltb, str_eq, ◌==◌, if◌then◌else◌,
}
use io_tables.Actor.{ActorContext, AppScope, platform, StaffRole, platform_owner, tenant_user}
use io_tables.Database.{Db, User, LoginSession, StaffRoleAssignment, is_in_use, is_granted}
use io_tables.Session.{Exec, ◌>>=◌, ◌>>◌, pure, execute, commit, uuid4, utc_now}
use io_tables.Access.Login.Accounts.{LoginServices, session_ttl}

pub data LoginStatus : Type 0 where
  authenticated first_password_required : LoginStatus

-- No login sets `totp_setup`.
pub record LoginResult : Type 0 where
  pub status : LoginStatus
  pub actor : Option ActorContext
  pub session_token : Option String
  pub expires_at : Option ℕ
  pub setup_token : Option String

abbrev pub new_login_session : Option ℕ → ℕ → AppScope → String → ℕ → ℕ → LoginSession
new_login_session tenant_id user_id app_scope session_token_hash now session_id = record {
  id = session_id;
  tenant_id = tenant_id;
  user_id = user_id;
  app_scope = app_scope;
  session_token_hash = session_token_hash;
  issued_at = now;
  expires_at = now + session_ttl;
  revoked_at = none;
}

abbrev pub tenant_actor : ℕ → ℕ → AppScope → List StaffRole → ℕ → ActorContext
tenant_actor user_id tenant_id app_scope roles session_id = record {
  actor_type = tenant_user;
  app_scope = app_scope;
  user_id = some user_id;
  tenant_id = some tenant_id;
  roles = roles;
  session_id = some session_id;
}

abbrev pub owner_actor : ℕ → ℕ → ActorContext
owner_actor user_id session_id = record {
  actor_type = platform_owner;
  app_scope = platform;
  user_id = some user_id;
  tenant_id = none;
  roles = [];
  session_id = some session_id;
}

abbrev pub logged_in : ActorContext → String → ℕ → LoginResult
logged_in actor session_token now = record {
  status = authenticated;
  actor = some actor;
  session_token = some session_token;
  expires_at = some (now + session_ttl);
  setup_token = none;
}

module _ (services : LoginServices) where
  -- `_create_tenant_session`
  unfoldable pub create_tenant_session : ℕ → ℕ → AppScope → StaffRole → Exec LoginResult
  create_tenant_session user_id tenant_id app_scope role = do
    now ← utc_now
    random ← uuid4
    session_id ← uuid4
    execute (λ db. record db {
      login_sessions =
          insert
            (new_login_session (some tenant_id) user_id app_scope
              (services.hash_session_token (services.token_urlsafe random)) now session_id)
            db.login_sessions;
    })
    commit
    pure (
        logged_in (tenant_actor user_id tenant_id app_scope (role ∷ []) session_id)
          (services.token_urlsafe random) now)

  -- `_create_platform_session`
  unfoldable pub create_platform_session : ℕ → Exec LoginResult
  create_platform_session user_id = do
    now ← utc_now
    random ← uuid4
    session_id ← uuid4
    execute (λ db. record db {
      login_sessions =
          insert
            (new_login_session none user_id platform
              (services.hash_session_token (services.token_urlsafe random)) now session_id)
            db.login_sessions;
    })
    commit
    pure (logged_in (owner_actor user_id session_id) (services.token_urlsafe random) now)

unfoldable pub logout : ℕ → Exec (Unit {0})
logout session_id = do
  now ← utc_now
  execute (λ db. record db {
    login_sessions =
        update (λ l. l.id == session_id) (λ l. record l { revoked_at = some now })
          db.login_sessions;
  })
  commit

-- The resolver.
abbrev pub is_live_session : String → ℕ → LoginSession → Bool
is_live_session token_hash now l =
    str_eq l.session_token_hash token_hash && ltb now l.expires_at && is_none l.revoked_at

-- The user in use that a session is joined with.
abbrev pub is_user_of : LoginSession → User → Bool
is_user_of l u = (u.id == l.user_id) && is_in_use u.status

unfoldable pub live_session : String → ℕ → Db → Option (LoginSession × User)
live_session token_hash now db =
    find (λ r. is_live_session token_hash now r.0) (join is_user_of db.login_sessions db.users)

-- `_has_platform_owner_role`
unfoldable pub has_platform_owner_role : ℕ → Db → Bool
has_platform_owner_role user_id db =
    any (λ r. (r.user_id == user_id) && is_in_use r.status) db.platform_role_assignments

abbrev pub is_role_of : Option ℕ → ℕ → StaffRoleAssignment → Bool
is_role_of none user_id a = false
is_role_of (some tenant_id) user_id a =
    (a.tenant_id == tenant_id) && (a.user_id == user_id) && is_granted a.status

-- `_load_roles` outside the platform
unfoldable pub load_roles : ℕ → Option ℕ → Db → List StaffRole
load_roles user_id tenant_id db =
    map (λ a. a.role) (select (is_role_of tenant_id user_id) db.staff_role_assignments)

abbrev pub staff_context : LoginSession → Db → ActorContext
staff_context l db = record {
  actor_type = tenant_user;
  app_scope = l.app_scope;
  user_id = some l.user_id;
  tenant_id = l.tenant_id;
  roles = load_roles l.user_id l.tenant_id db;
  session_id = some l.id;
}

abbrev pub owner_context : LoginSession → Db → Option ActorContext
owner_context l db =
    if has_platform_owner_role l.user_id db
    then some (record (owner_actor l.user_id l.id) { tenant_id = l.tenant_id })
    else none

abbrev pub context_of : LoginSession → AppScope → Db → Option ActorContext
context_of l platform db = owner_context l db
context_of l _ db = some (staff_context l db)

abbrev pub context_at : Db → Option (LoginSession × User) → Option ActorContext
context_at db none = none
context_at db (some (l, u)) = context_of l l.app_scope db

-- `DatabaseSessionResolver.resolve`
unfoldable pub resolve : LoginServices → String → ℕ → Db → Option ActorContext
resolve services session_token now db =
    context_at db (live_session (services.hash_session_token session_token) now db)
