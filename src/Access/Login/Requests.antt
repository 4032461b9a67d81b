-- ===== src/Access/Login/Requests.antt =====
-- The requests about accounts, and what any run of them cannot undo.
use io_tables.Common.{
  ℕ, ◌≡◌, ◌≢◌, refl, String, true, false, ◌&&◌, Option, none, some, List, count, insert, is_none,
  arith, count-insert, count-update_le, count-update_all, find-join_sound, count-join_found, ◌==◌,
}
use io_tables.Actor.{ActorContext, AppScope, platform, tenant, cashier_app, station, service}
use io_tables.Database.{Db, LoginSession, User}
use io_tables.Errors.{ApiError}
use io_tables.Session.{Session, err, begin, ◌>>=◌}
use io_tables.Session.Ends.{
  Ends, Always, Untouched, Ends-Untouched, Ends-utc_now, Ends-execute, Ends-commit_last,
}
use io_tables.Access.Login.Accounts.{LoginServices}
use io_tables.Access.Login.Sessions.{
  new_login_session, logout, is_live_session, is_user_of, live_session, context_of, context_at,
  resolve,
}
use io_tables.Access.Login.Authenticate.{authenticate}
use io_tables.Access.Login.FirstPassword.{begin_first_password_setup, complete_first_password_setup}
use io_tables.Security.Totp.{TotpServices}
use io_tables.Access.Login.Owner.{create_platform_owner}
use io_tables.Access.Login.Enroll.{enroll_platform_totp}
use io_tables.Access.Login.OwnerCommits.{create_platform_owner-Ends, enroll_platform_totp-Ends}
use io_tables.Access.Login.Commits.{
  authenticate-Ends, begin_first_password_setup-Ends, complete_first_password_setup-Ends,
}

-- A request about accounts.
pub data AccountRequest : Type 0 where
  login_request : AppScope → String → String → Option String → AccountRequest
  logout_request : ℕ → AccountRequest
  begin_request : String → AccountRequest
  complete_request : String → String → Option ℕ → Option String → AccountRequest
  owner_request : String → String → AccountRequest
  enroll_request : String → String → String → String → AccountRequest

-- What is committed once the request is answered.
abbrev pub serve_account :
    LoginServices → TotpServices → (String → String) → (ℕ → ℕ) → (ℕ → ℕ) → Db → AccountRequest → Db
serve_account services totp encrypt_totp_secret uuids clock db
      (login_request app_scope username password subdomain) =
    (authenticate services app_scope username password subdomain (begin db uuids clock)).1.committed
serve_account services totp encrypt_totp_secret uuids clock db (logout_request session_id) =
    (logout session_id (begin db uuids clock)).1.committed
serve_account services totp encrypt_totp_secret uuids clock db (begin_request setup_token) =
    (begin_first_password_setup services setup_token (begin db uuids clock)).1.committed
serve_account services totp encrypt_totp_secret uuids clock db
      (complete_request setup_token new_password challenge code) =
    (complete_first_password_setup services setup_token new_password challenge code
      (begin db uuids clock)).1.committed
serve_account services totp encrypt_totp_secret uuids clock db (owner_request username password) =
    (create_platform_owner services username password (begin db uuids clock)).1.committed
serve_account services totp encrypt_totp_secret uuids clock db
      (enroll_request username password secret totp_code) =
    (enroll_platform_totp services totp encrypt_totp_secret username password secret totp_code
      (begin db uuids clock)).1.committed

-- No session in force has the id.
abbrev pub IsEnded : ℕ → List LoginSession → Type 0
IsEnded session_id rows = count (λ l. (l.id == session_id) && is_none l.revoked_at) rows ≡ 0

-- The databases that such requests, one after the other, can lead to, where no request draws the id.
pub data AccountReaches (services : LoginServices) (totp : TotpServices)
    (encrypt_totp_secret : String → String) (session_id : ℕ) (db : Db) : Db → Type 0 where
  account_here : AccountReaches services totp encrypt_totp_secret session_id db db
  account_next :
      {db' : Db} (uuids clock : ℕ → ℕ) (request : AccountRequest)
      → ((n : ℕ) → (uuids n == session_id) ≡ false)
      → AccountReaches services totp encrypt_totp_secret session_id db db'
      → AccountReaches services totp encrypt_totp_secret session_id db
          (serve_account services totp encrypt_totp_secret uuids clock db' request)

logout_ends :
    (session_id : ℕ) (s : Session)
    → IsEnded session_id (logout session_id s).1.committed.login_sessions
unfolding logout ◌>>=◌
logout_ends session_id s =
    count-update_all (λ l. (l.id == session_id) && is_none l.revoked_at) (λ l. l.id == session_id)
      (λ l. record l { revoked_at = some (s.clock s.read) }) (λ l. ground arith)
      (λ l h. ground arith) s.db.login_sessions

module _ (services : LoginServices) (totp : TotpServices) (encrypt_totp_secret : String → String)
    (session_id : ℕ) (uuids clock : ℕ → ℕ)
    (spares : (n : ℕ) → (uuids n == session_id) ≡ false) where
  grows-IsEnded :
      (tenant_id : Option ℕ) (user_id : ℕ) (app_scope : AppScope) (token_hash : String) (now n : ℕ)
      (rows : List LoginSession)
      → IsEnded session_id rows
      → IsEnded session_id
          (insert (new_login_session tenant_id user_id app_scope token_hash now (uuids n)) rows)
  grows-IsEnded tenant_id user_id app_scope token_hash now n rows ended = grind (
    arith,
    ended,
    spares n,
    count-insert (λ l. (l.id == session_id) && is_none l.revoked_at)
        (new_login_session tenant_id user_id app_scope token_hash now (uuids n)) rows,
  )

  logout-Ended :
      (other : ℕ) (s : Session)
      → IsEnded session_id s.db.login_sessions
      → Ends (Always (λ db. IsEnded session_id db.login_sessions)) (logout other s)
  unfolding logout
  logout-Ended other s ended = Ends-utc_now _ _ (
      Ends-execute _ _ _ (
        Ends-commit_last _ (
          omega (
            arith,
            ended,
            count-update_le (λ l. (l.id == session_id) && is_none l.revoked_at) (λ l. l.id == other)
                (λ l. record l { revoked_at = some (s.clock s.read) }) (λ l. ground arith)
                s.db.login_sessions,
          ))))

  serve_account-Ended :
      (db : Db) (request : AccountRequest)
      → IsEnded session_id db.login_sessions
      → IsEnded session_id
          (serve_account services totp encrypt_totp_secret uuids clock db request).login_sessions
  serve_account-Ended db (login_request app_scope username password subdomain) ended =
      (authenticate-Ends services (IsEnded session_id) db uuids
        {P = Always (λ db. IsEnded session_id db.login_sessions)} (λ s same. rw same ended)
        (λ s h. h) grows-IsEnded app_scope username password subdomain (begin db uuids clock)
        (refl, ended, refl) ended).at
  serve_account-Ended db (logout_request other) ended =
      (logout-Ended other (begin db uuids clock) ended).at
  serve_account-Ended db (begin_request setup_token) ended =
      (begin_first_password_setup-Ends services (IsEnded session_id) db uuids
        {P = Always (λ db. IsEnded session_id db.login_sessions)} (λ s same. rw same ended)
        (λ s h. h) grows-IsEnded setup_token (begin db uuids clock) (refl, ended, refl) ended).at
  serve_account-Ended db (complete_request setup_token new_password challenge code) ended =
      (complete_first_password_setup-Ends services (IsEnded session_id) db uuids
        {P = Always (λ db. IsEnded session_id db.login_sessions)} (λ s same. rw same ended)
        (λ s h. h) grows-IsEnded setup_token new_password challenge code (begin db uuids clock)
        (refl, ended, refl)).at
  serve_account-Ended db (owner_request username password) ended =
      (create_platform_owner-Ends services (IsEnded session_id) db uuids
        {P = Always (λ db. IsEnded session_id db.login_sessions)} (λ s same. rw same ended)
        (λ s h. h) grows-IsEnded username password (begin db uuids clock) (refl, ended, refl)).at
  serve_account-Ended db (enroll_request username password secret totp_code) ended =
      (enroll_platform_totp-Ends services (IsEnded session_id) db uuids
        {P = Always (λ db. IsEnded session_id db.login_sessions)} (λ s same. rw same ended)
        (λ s h. h) grows-IsEnded totp encrypt_totp_secret username password secret totp_code
        (begin db uuids clock) (refl, ended, refl)).at

reaches-Ended :
    (services : LoginServices) (totp : TotpServices) (encrypt_totp_secret : String → String)
    (session_id : ℕ) {db db' : Db}
    → IsEnded session_id db.login_sessions
    → AccountReaches services totp encrypt_totp_secret session_id db db'
    → IsEnded session_id db'.login_sessions
reaches-Ended services totp encrypt_totp_secret session_id ended account_here = ended
reaches-Ended services totp encrypt_totp_secret session_id ended
      (account_next uuids clock request spares reached) =
    serve_account-Ended services totp encrypt_totp_secret session_id uuids clock spares _ request
      (reaches-Ended services totp encrypt_totp_secret session_id ended reached)

-- The actor that a session resolves to carries the id of the session.
context_of-session :
    (l : LoginSession) (k : AppScope) (db : Db) (actor : ActorContext)
    → context_of l k db ≡ some actor
    → actor.session_id ≡ some l.id
context_of-session l platform db actor h = ground (arith, h)
context_of-session l tenant db actor h = cc
context_of-session l cashier_app db actor h = cc
context_of-session l station db actor h = cc
context_of-session l service db actor h = cc

context_at-Ended :
    (session_id : ℕ) (token_hash : String) (now : ℕ) (db : Db)
    (found : Option (LoginSession × User)) (actor : ActorContext)
    → IsEnded session_id db.login_sessions
    → live_session token_hash now db ≡ found
    → context_at db found ≡ some actor
    → actor.session_id ≢ some session_id
unfolding live_session
context_at-Ended session_id token_hash now db none actor ended at_session at_actor = cc
context_at-Ended session_id token_hash now db (some (l, u)) actor ended at_session at_actor =
    λ same.
      let its_id : l.id ≡ session_id = cc (context_of-session l l.app_scope db actor at_actor) in
      let live : is_live_session token_hash now l ≡ true =
        (find-join_sound (is_live_session token_hash now) is_user_of db.login_sessions db.users l u
          at_session).0 in
      ground (
        arith,
        ended,
        count-join_found (is_live_session token_hash now) is_user_of
            (λ l. (l.id == session_id) && is_none l.revoked_at) db.login_sessions db.users l u
            at_session,
      )

-- A session that was logged out stands for nobody: after any run of logins, logouts, password
-- setups, owner creations and enrolments that do not draw its id for another session, no token resolves to an actor of this
-- session, at whatever time.
pub logged_out_stays :
    (services : LoginServices) (totp : TotpServices) (encrypt_totp_secret : String → String)
    (session_id : ℕ) (s : Session) (db : Db)
    → AccountReaches services totp encrypt_totp_secret session_id
        (logout session_id s).1.committed
        db
    → (session_token : String) (now : ℕ) (actor : ActorContext)
    → resolve services session_token now db ≡ some actor
    → actor.session_id ≢ some session_id
unfolding resolve
logged_out_stays services totp encrypt_totp_secret session_id s db reached session_token now actor
      at_actor =
    context_at-Ended session_id (services.hash_session_token session_token) now db
      (live_session (services.hash_session_token session_token) now db) actor
      (reaches-Ended services totp encrypt_totp_secret session_id (logout_ends session_id s)
        reached)
      refl at_actor

-- A first password that is refused, also for a wrong or late code, leaves what is committed alone;
-- so the attempt that `verify` notes for a wrong code is not kept.
pub complete_refused :
    (services : LoginServices) (setup_token new_password : String) (otp_challenge_id : Option ℕ)
    (otp_code : Option String) (s : Session) {e : ApiError}
    → (complete_first_password_setup services setup_token new_password otp_challenge_id otp_code
        s).0
      ≡ err e
    → (complete_first_password_setup services setup_token new_password otp_challenge_id otp_code
        s).1.committed
      ≡ s.committed
complete_refused services setup_token new_password otp_challenge_id otp_code s =
    Ends-Untouched
      (complete_first_password_setup services setup_token new_password otp_challenge_id otp_code s)
      (complete_first_password_setup-Ends services (λ rows. Unit) s.committed s.uuids
        {P = Untouched s.committed} (λ s' same. same) (λ s' h. tt)
        (λ tenant_id user_id app_scope token_hash now n rows h. tt) setup_token new_password
        otp_challenge_id otp_code s (refl, tt, refl))
