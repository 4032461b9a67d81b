-- ===== src/Access/Login/Lifetime.antt =====
-- A login session: what it stands for, and how long.
use io_tables.Common.{
  ℕ, suc, ◌+◌, ◌≡◌, refl, String, true, false, ◌&&◌, Option, none, some, [], ◌∷◌, find, insert, ltb,
  str_eq, eq_refl, arith, find-join-insert, find-join-none, find-sharper_none, if◌then◌else◌, ◌==◌,
  Bool-cases, inl, inr,
}
use io_tables.Actor.{
  ActorContext, AppScope, platform, tenant, cashier_app, station, service, StaffRole,
}
use io_tables.Security.Passwords.{verify_password}
use io_tables.Database.{Db, User, Credential, LoginSession, is_in_use}
use io_tables.Session.{Session, ok, ◌>>=◌, case_option}
use io_tables.Access.Login.Accounts.{
  LoginServices, session_ttl, required_role_of, normalize_username, load_tenant_user,
  load_credential,
}
use io_tables.Access.Login.Authenticate.{
  authenticate, authenticate_tenant_user, check_password, finish_login,
}
use io_tables.Access.Login.Sessions.{
  LoginResult, new_login_session, tenant_actor, logged_in, create_tenant_session, is_live_session,
  is_user_of, live_session, load_roles, context_of, resolve,
}

module _ (services : LoginServices) (user_id tenant_id : ℕ) (app_scope : AppScope)
    (role : StaffRole) (s : Session) where
  abbrev pub issued_token : String
  issued_token = services.token_urlsafe (s.uuids s.drawn)

  abbrev pub issued_session : LoginSession
  issued_session =
      new_login_session (some tenant_id) user_id app_scope
        (services.hash_session_token issued_token) (s.clock s.read) (s.uuids (suc s.drawn))

  abbrev pub logged_in_db : Db
  logged_in_db = record s.db { login_sessions = insert issued_session s.db.login_sessions }

  abbrev pub logged_in_session : Session
  logged_in_session = record s {
    db = logged_in_db;
    committed = logged_in_db;
    drawn = suc (suc s.drawn);
    read = suc s.read;
  }

  abbrev pub login_answer : LoginResult
  login_answer =
      logged_in (tenant_actor user_id tenant_id app_scope (role ∷ []) (s.uuids (suc s.drawn)))
        issued_token (s.clock s.read)

  pub create_tenant_session_lem :
      create_tenant_session services user_id tenant_id app_scope role s
      ≡ (ok login_answer, logged_in_session)
  unfolding create_tenant_session ◌>>=◌
  create_tenant_session_lem = refl

  live_session-logged_in :
      (u : User) (now : ℕ)
      → find
          (λ l. str_eq l.session_token_hash (services.hash_session_token issued_token))
          s.db.login_sessions
        ≡ none
      → find (is_user_of issued_session) s.db.users ≡ some u
      → live_session (services.hash_session_token issued_token) now logged_in_db
        ≡ (if ltb now (s.clock s.read + session_ttl) then some (issued_session, u) else none)
  unfolding live_session
  live_session-logged_in u now unused at_user = ground (
    arith,
    eq_refl (services.hash_session_token issued_token),
    find-join-insert (is_live_session (services.hash_session_token issued_token) now) is_user_of
        issued_session s.db.login_sessions s.db.users,
    find-join-none (is_live_session (services.hash_session_token issued_token) now) is_user_of
        s.db.login_sessions s.db.users,
    find-sharper_none (λ l. str_eq l.session_token_hash (services.hash_session_token issued_token))
        (is_live_session (services.hash_session_token issued_token) now) (λ l h. ground arith)
        s.db.login_sessions unused,
  )

  -- Who the session stands for, with the roles that are in force when it is asked for.
  abbrev pub staff_at : Db → ActorContext
  staff_at db =
      tenant_actor user_id tenant_id app_scope (load_roles user_id (some tenant_id) db)
        (s.uuids (suc s.drawn))

  context_of-issued :
      required_role_of app_scope ≡ some role
      → context_of issued_session app_scope logged_in_db ≡ some (staff_at s.db)
  unfolding load_roles
  context_of-issued staffed =
      elim app_scope
          as (λ k.
            required_role_of k ≡ some role
            → context_of issued_session k logged_in_db ≡ some (staff_at s.db)) [
              | platform ↦ λ h. cc
              | tenant ↦ λ h. refl
              | cashier_app ↦ λ h. refl
              | station ↦ λ h. refl
              | service ↦ λ h. refl
            ]
        staffed

  resolve-logged_in :
      (u : User) (now : ℕ)
      → required_role_of app_scope ≡ some role
      → find
          (λ l. str_eq l.session_token_hash (services.hash_session_token issued_token))
          s.db.login_sessions
        ≡ none
      → find (is_user_of issued_session) s.db.users ≡ some u
      → resolve services issued_token now logged_in_db
        ≡ (if ltb now (s.clock s.read + session_ttl) then some (staff_at s.db) else none)
  unfolding resolve
  resolve-logged_in u now staffed unused at_user =
      elim (Bool-cases (ltb now (s.clock s.read + session_ttl))) [
        | inl live ↦
            simp (live_session-logged_in u now unused at_user, live, context_of-issued staffed)
        | inr over ↦ simp (live_session-logged_in u now unused at_user, over)
      ]

-- A role that the app asks for is asked of a user of the tenant.
authenticate_staff :
    (services : LoginServices) (app_scope : AppScope) (username password : String)
    (tenant_subdomain : Option String) (s : Session) (role : StaffRole)
    → required_role_of app_scope ≡ some role
    → authenticate services app_scope username password tenant_subdomain s
      ≡ authenticate_tenant_user services username password tenant_subdomain app_scope role s
unfolding authenticate ◌>>=◌
authenticate_staff services platform username password tenant_subdomain s role staffed = cc
authenticate_staff services tenant username password tenant_subdomain s role staffed = cc
authenticate_staff services cashier_app username password tenant_subdomain s role staffed = cc
authenticate_staff services station username password tenant_subdomain s role staffed = cc
authenticate_staff services service username password tenant_subdomain s role staffed = cc

authenticate_accepts :
    (services : LoginServices) (app_scope : AppScope) (username password : String)
    (tenant_subdomain : Option String) (s : Session) (role : StaffRole) (u : User) (c : Credential)
    (tenant_id : ℕ)
    → required_role_of app_scope ≡ some role
    → load_tenant_user services (normalize_username services username) tenant_subdomain role s.db
      ≡ some u
    → load_credential u.id s.db ≡ some c
    → verify_password services.passwords password c.password_hash ≡ true
    → u.tenant_id ≡ some tenant_id
    → u.first_password_change_required ≡ false
    → authenticate services app_scope username password tenant_subdomain s ≡ (
      ok (login_answer services u.id tenant_id app_scope role s),
      logged_in_session services u.id tenant_id app_scope role s,
    )
unfolding authenticate_tenant_user check_password finish_login create_tenant_session case_option
    ◌>>=◌
authenticate_accepts services app_scope username password tenant_subdomain s role u c tenant_id
      staffed at_user at_credential right at_tenant settled =
    rw (authenticate_staff services app_scope username password tenant_subdomain s role staffed)
      (simp (at_user, at_credential, right, at_tenant, settled))

-- A user of the tenant with the role that the app asks for, and with the right password of its own,
-- is logged in; the token of the answer then stands for this user, with all the roles that are in
-- force, at every time before the eight hours are over, and for nobody from then on, where no
-- earlier session has the hash of the token and the user's id is that of a user in use.
pub login_resolves :
    (services : LoginServices) (app_scope : AppScope) (username password : String)
    (tenant_subdomain : Option String) (s : Session) (role : StaffRole) (u : User) (c : Credential)
    (tenant_id : ℕ)
    → required_role_of app_scope ≡ some role
    → load_tenant_user services (normalize_username services username) tenant_subdomain role s.db
      ≡ some u
    → load_credential u.id s.db ≡ some c
    → verify_password services.passwords password c.password_hash ≡ true
    → u.tenant_id ≡ some tenant_id
    → u.first_password_change_required ≡ false
    → find
        (λ l.
          str_eq l.session_token_hash
            (services.hash_session_token (services.token_urlsafe (s.uuids s.drawn))))
        s.db.login_sessions
      ≡ none
    → find (λ x. (x.id == u.id) && is_in_use x.status) s.db.users ≡ some u
    → ((authenticate services app_scope username password tenant_subdomain s).0
        ≡ ok (login_answer services u.id tenant_id app_scope role s))
      × ((now : ℕ)
          → resolve services
              (services.token_urlsafe (s.uuids s.drawn))
              now
              (authenticate services app_scope username password tenant_subdomain s).1.committed
            ≡ (if ltb now (s.clock s.read + session_ttl)
                then some (staff_at services u.id tenant_id app_scope role s s.db)
                else none))
login_resolves services app_scope username password tenant_subdomain s role u c tenant_id staffed
      at_user at_credential right at_tenant settled unused in_use_now =
    rw
      (authenticate_accepts services app_scope username password tenant_subdomain s role u c
        tenant_id staffed at_user at_credential right at_tenant settled)
      (
        refl,
        λ now.
            resolve-logged_in services u.id tenant_id app_scope role s u now staffed unused
              in_use_now,
      )
