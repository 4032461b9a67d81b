-- ===== src/Access/Login/OwnerCommits.antt =====
-- What the requests of the platform owner leave committed of the login sessions.
use io_tables.Common.{ℕ, String, ◌≡◌, Bool, true, false, Option, List, insert}
use io_tables.Actor.{AppScope}
use io_tables.Database.{Db, LoginSession, PlatformRoleAssignment}
use io_tables.Session.{Session}
use io_tables.Session.Ends.{
  Ends, Ends-then, Ends-pure, Ends-query, Ends-or_raise, Ends-raise_if, Ends-execute, Ends-commit,
  Ends-uuid4, Ends-utc_now, Ends-case_option, Ends-raise_if_last,
}
use io_tables.Security.Totp.{TotpServices}
use io_tables.Access.Login.Accounts.{LoginServices}
use io_tables.Access.Login.Sessions.{new_login_session}
use io_tables.Access.Login.Pending.{Kept, insert_audit_event-Kept}
use io_tables.Access.Login.Commits.{validate_platform_password-Kept, create_platform_session-Ends}
use io_tables.Access.Login.Owner.{existing_owner, insert_owner, create_platform_owner}
use io_tables.Access.Login.Enroll.{check_totp, enroll_user, enroll_platform_totp}

module _ (services : LoginServices) (R : List LoginSession → Type 0) (c : Db) (uuids : ℕ → ℕ) where
  check_totp-Kept :
      (totp : TotpServices) (encrypt_totp_secret : String → String) (secret totp_code : String)
      (s : Session)
      → Kept R c uuids true s
      → Ends (Kept R c uuids) (check_totp services totp encrypt_totp_secret secret totp_code s)
  unfolding check_totp
  check_totp-Kept totp encrypt_totp_secret secret totp_code s h =
      Ends-utc_now _ _
        (Ends-or_raise _ _ _ _ h.0 (λ is_valid answer. Ends-raise_if_last _ _ _ h.0 h))

module _ (services : LoginServices) (R : List LoginSession → Type 0) (c : Db) (uuids : ℕ → ℕ)
    {P : Bool → Session → Type 0} (fails : (s : Session) → s.committed ≡ c → P false s)
    (returns : (s : Session) → R s.committed.login_sessions → P true s)
    (grows : (tenant_id : Option ℕ) (user_id : ℕ) (app_scope : AppScope) (token_hash : String)
        (now n : ℕ) (rows : List LoginSession)
      → R rows
      → R (
          insert
            (new_login_session tenant_id user_id app_scope token_hash now (uuids n))
            rows)) where
  existing_owner-Ends :
      (name : String) (owner : PlatformRoleAssignment) (s : Session)
      → Kept R c uuids true s
      → Ends P (existing_owner name owner s)
  unfolding existing_owner
  existing_owner-Ends name owner s h =
      Ends-query _ _ _ (Ends-commit _ _ (Ends-pure _ _ (returns _ h.1)))

  insert_owner-Ends :
      (name password : String) (s : Session)
      → Kept R c uuids true s
      → Ends P (insert_owner services name password s)
  unfolding insert_owner
  insert_owner-Ends name password s h = Ends-uuid4 _ _ (
      Ends-utc_now _ _ (
        Ends-execute _ _ _ (
          Ends-uuid4 _ _ (
            Ends-execute _ _ _ (
              Ends-uuid4 _ _ (
                Ends-execute _ _ _ (
                  Ends-then (Kept R c uuids) _ _ _
                    (insert_audit_event-Kept R c uuids _ _ _ _ _ _ _ _ _ h) fails
                    (λ logged s' h'. Ends-commit _ _ (Ends-pure _ _ (returns _ h'.1))))))))))

  pub create_platform_owner-Ends :
      (username password : String) (s : Session)
      → Kept R c uuids true s
      → Ends P (create_platform_owner services username password s)
  unfolding create_platform_owner
  create_platform_owner-Ends username password s h = Ends-raise_if _ _ _ _ (fails _ h.0) (λ filled.
      Ends-query _ _ _ (
        Ends-case_option _ _ _ _ (λ free. insert_owner-Ends _ password s h)
          (λ owner there. existing_owner-Ends _ owner s h)))

  enroll_user-Ends :
      (totp : TotpServices) (encrypt_totp_secret : String → String) (user_id : ℕ) (secret : String)
      (s : Session)
      → Kept R c uuids true s
      → Ends P (enroll_user services totp encrypt_totp_secret user_id secret s)
  unfolding enroll_user
  enroll_user-Ends totp encrypt_totp_secret user_id secret s h = Ends-utc_now _ _ (
      Ends-query _ _ _ (
        Ends-raise_if _ _ _ _ (fails _ h.0) (λ free. Ends-execute _ _ _ (
          Ends-then (Kept R c uuids) _ _ _ (insert_audit_event-Kept R c uuids _ _ _ _ _ _ _ _ _ h)
            fails
            (λ logged s' h'.
              create_platform_session-Ends services R c uuids fails returns grows user_id s' h')))))

  pub enroll_platform_totp-Ends :
      (totp : TotpServices) (encrypt_totp_secret : String → String)
      (username password secret totp_code : String) (s : Session)
      → Kept R c uuids true s
      → Ends P (
          enroll_platform_totp services totp encrypt_totp_secret username password secret totp_code
            s)
  unfolding enroll_platform_totp
  enroll_platform_totp-Ends totp encrypt_totp_secret username password secret totp_code s h =
      Ends-then (Kept R c uuids) _ _ _
        (validate_platform_password-Kept services R c uuids username password s h) fails
        (λ u s1 h1.
          Ends-then (Kept R c uuids) _ _ _
            (check_totp-Kept services R c uuids totp encrypt_totp_secret secret totp_code s1 h1)
            fails (λ checked s2 h2. enroll_user-Ends totp encrypt_totp_secret u.id secret s2 h2))
