-- ===== src/Access/Login/Commits.antt =====
-- What the requests about accounts leave committed of the login sessions.
use io_tables.Common.{ℕ, suc, String, ◌≡◌, Bool, true, false, Option, none, some, List, insert}
use io_tables.Actor.{AppScope, platform, tenant, cashier_app, station, service, StaffRole}
use io_tables.Database.{Db, LoginSession, User}
use io_tables.Session.{Session, pure, ◌>>=◌, case_option}
use io_tables.Session.Ends.{
  Ends, Ends-then, Ends-pure, Ends-query, Ends-or_raise, Ends-raise_if, Ends-execute, Ends-commit,
  Ends-uuid4, Ends-utc_now, Ends-case_option, Ends-raise_if_last, Ends-nested, Ends-pure_bind,
  Ends-if,
}
use io_tables.Access.Login.Accounts.{LoginServices, otp_purpose_of}
use io_tables.Access.Login.Sessions.{
  new_login_session, create_tenant_session, create_platform_session,
}
use io_tables.Access.Login.Authenticate.{
  change_required, check_password, validate_platform_password, authenticate_platform,
  issue_setup_token, finish_login, authenticate_tenant_user, authenticate,
}
use io_tables.Access.Login.FirstPassword.{
  Setup, prove_otp, begin_first_password_setup, complete_first_password_setup,
}
use io_tables.Access.Login.Pending.{
  Kept, load_setup-Kept, create_challenge-Kept, prove_otp-Kept, change_password-Kept,
  log_proof-Kept, insert_audit_event-Kept,
}

module _ (services : LoginServices) (R : List LoginSession → Type 0) (c : Db) (uuids : ℕ → ℕ) where
  check_password-Kept :
      (password : String) (u : User) (s : Session)
      → Kept R c uuids true s
      → Ends (Kept R c uuids) (check_password services password u s)
  unfolding check_password
  check_password-Kept password u s h = Ends-query _ _ _ (Ends-raise_if_last _ _ _ h.0 h)

  pub validate_platform_password-Kept :
      (username password : String) (s : Session)
      → Kept R c uuids true s
      → Ends (Kept R c uuids) (validate_platform_password services username password s)
  unfolding validate_platform_password
  validate_platform_password-Kept username password s h = Ends-query _ _ _ (
      Ends-or_raise _ _ _ _ h.0 (λ u at_user.
        Ends-then (Kept R c uuids) _ _ _ (check_password-Kept password u s h) (λ s' k. k)
          (λ right s' k. Ends-pure _ _ k)))

  proof-Kept :
      (setup : Setup) (otp_challenge_id : Option ℕ) (otp_code : Option String) (now : ℕ)
      (s : Session)
      → Kept R c uuids true s
      → Ends (Kept R c uuids) (
          case_option
            (otp_purpose_of setup.app_scope)
            (pure none)
            (λ otp_purpose. prove_otp services setup.user otp_purpose otp_challenge_id otp_code now)
            s)
  proof-Kept setup otp_challenge_id otp_code now s h =
      Ends-case_option _ _ _ _ (λ free. Ends-pure _ _ h)
        (λ purpose asked. prove_otp-Kept R c uuids services setup.user purpose _ _ now s h)

module _ (services : LoginServices) (R : List LoginSession → Type 0) (c : Db) (uuids : ℕ → ℕ)
    {P : Bool → Session → Type 0} (fails : (s : Session) → s.committed ≡ c → P false s)
    (returns : (s : Session) → R s.committed.login_sessions → P true s)
    (grows : (tenant_id : Option ℕ) (user_id : ℕ) (app_scope : AppScope) (token_hash : String)
        (now n : ℕ) (rows : List LoginSession)
      → R rows
      → R (
          insert
            (new_login_session tenant_id user_id app_scope token_hash now (uuids n))
            rows)) where
  create_tenant_session-Ends :
      (user_id tenant_id : ℕ) (app_scope : AppScope) (role : StaffRole) (s : Session)
      → Kept R c uuids true s
      → Ends P (create_tenant_session services user_id tenant_id app_scope role s)
  unfolding create_tenant_session
  create_tenant_session-Ends user_id tenant_id app_scope role s h = Ends-utc_now _ _ (
      Ends-uuid4 _ _ (
        Ends-uuid4 _ _ (
          Ends-execute _ _ _ (
            Ends-commit _ _
              (Ends-pure _ _ (returns _ (rw h.2 (grows _ _ _ _ _ (suc s.drawn) _ h.1))))))))

  pub create_platform_session-Ends :
      (user_id : ℕ) (s : Session)
      → Kept R c uuids true s
      → Ends P (create_platform_session services user_id s)
  unfolding create_platform_session
  create_platform_session-Ends user_id s h = Ends-utc_now _ _ (
      Ends-uuid4 _ _ (
        Ends-uuid4 _ _ (
          Ends-execute _ _ _ (
            Ends-commit _ _
              (Ends-pure _ _ (returns _ (rw h.2 (grows _ _ _ _ _ (suc s.drawn) _ h.1))))))))

  -- A login that answers that the password has to be changed first.
  issue_setup_token-Ends :
      (user_id tenant_id : ℕ) (app_scope : AppScope) (s : Session)
      → Kept R c uuids true s
      → R c.login_sessions
      → Ends P (
          (issue_setup_token services user_id tenant_id app_scope >>= λ setup_token.
          pure (change_required (some setup_token)))
            s)
  unfolding issue_setup_token
  issue_setup_token-Ends user_id tenant_id app_scope s h before =
      Ends-nested _ _ _ _
        (Ends-utc_now _ _ (Ends-pure_bind _ _ _ (Ends-pure _ _ (returns _ (rw h.0 before)))))

  authenticate_tenant_user-Ends :
      (username password : String) (tenant_subdomain : Option String) (app_scope : AppScope)
      (role : StaffRole) (s : Session)
      → Kept R c uuids true s
      → R c.login_sessions
      → Ends P
          (authenticate_tenant_user services username password tenant_subdomain app_scope role s)
  unfolding authenticate_tenant_user finish_login
  authenticate_tenant_user-Ends username password tenant_subdomain app_scope role s h before =
      Ends-query _ _ _ (
        Ends-or_raise _ _ _ _ (fails _ h.0) (λ u at_user.
          Ends-then (Kept R c uuids) _ _ _ (check_password-Kept services R c uuids password u s h)
            fails
            (λ right s' h'. Ends-or_raise _ _ _ _ (fails _ h'.0) (λ tenant_id at_tenant.
              Ends-if u.first_password_change_required
                (issue_setup_token services u.id tenant_id app_scope >>= λ setup_token.
                  pure (change_required (some setup_token)))
                (create_tenant_session services u.id tenant_id app_scope role) s'
                (λ first. issue_setup_token-Ends u.id tenant_id app_scope s' h' before)
                (λ settled. create_tenant_session-Ends u.id tenant_id app_scope role s' h')))))

  authenticate_platform-Ends :
      (username password : String) (s : Session)
      → Kept R c uuids true s
      → R c.login_sessions
      → Ends P (authenticate_platform services username password s)
  unfolding authenticate_platform
  authenticate_platform-Ends username password s h before =
      Ends-then (Kept R c uuids) _ _ _
        (validate_platform_password-Kept services R c uuids username password s h) fails
        (λ u s' h'.
          Ends-if u.first_password_change_required (pure (change_required none))
            (create_platform_session services u.id) s'
            (λ first. Ends-pure _ _ (returns _ (rw h'.0 before)))
            (λ settled. create_platform_session-Ends u.id s' h'))

  pub authenticate-Ends :
      (app_scope : AppScope) (username password : String) (tenant_subdomain : Option String)
      (s : Session)
      → Kept R c uuids true s
      → R c.login_sessions
      → Ends P (authenticate services app_scope username password tenant_subdomain s)
  unfolding authenticate
  authenticate-Ends platform username password tenant_subdomain s h before =
      authenticate_platform-Ends username password s h before
  authenticate-Ends tenant username password tenant_subdomain s h before =
      Ends-or_raise _ _ _ _ (fails _ h.0) (λ role staffed.
        authenticate_tenant_user-Ends username password tenant_subdomain tenant role s h before)
  authenticate-Ends cashier_app username password tenant_subdomain s h before =
      Ends-or_raise _ _ _ _ (fails _ h.0) (λ role staffed.
        authenticate_tenant_user-Ends username password tenant_subdomain cashier_app role s h
          before)
  authenticate-Ends station username password tenant_subdomain s h before =
      Ends-or_raise _ _ _ _ (fails _ h.0) (λ role staffed.
        authenticate_tenant_user-Ends username password tenant_subdomain station role s h before)
  authenticate-Ends service username password tenant_subdomain s h before =
      Ends-or_raise _ _ _ _ (fails _ h.0) (λ role staffed.
        authenticate_tenant_user-Ends username password tenant_subdomain service role s h before)

  pub begin_first_password_setup-Ends :
      (setup_token : String) (s : Session)
      → Kept R c uuids true s
      → R c.login_sessions
      → Ends P (begin_first_password_setup services setup_token s)
  unfolding begin_first_password_setup
  begin_first_password_setup-Ends setup_token s h before =
      Ends-then (Kept R c uuids) _ _ _ (load_setup-Kept R c uuids services setup_token s h) fails
        (λ setup s' h'. Ends-utc_now _ _ (
          Ends-case_option _ _ _ _ (λ free. Ends-pure _ _ (returns _ (rw h'.0 before)))
            (λ purpose asked.
              Ends-then (Kept R c uuids) _ _ _
                (create_challenge-Kept R c uuids services.codes _ _ purpose _ _ _ h') fails
                (λ challenge s'' h''. Ends-commit _ _ (Ends-pure _ _ (returns _ h''.1))))))

  pub complete_first_password_setup-Ends :
      (setup_token new_password : String) (otp_challenge_id : Option ℕ) (otp_code : Option String)
      (s : Session)
      → Kept R c uuids true s
      → Ends P (
          complete_first_password_setup services setup_token new_password otp_challenge_id otp_code
            s)
  unfolding complete_first_password_setup
  complete_first_password_setup-Ends setup_token new_password otp_challenge_id otp_code s h =
      let K : Bool → Session → Type 0 = Kept R c uuids in
      Ends-raise_if _ _ _ _ (fails _ h.0) (λ long.
        Ends-then K _ _ _ (load_setup-Kept R c uuids services setup_token s h) fails (λ setup s1 h1.
          Ends-utc_now _ _ (
            Ends-then K _ _ _ (proof-Kept services R c uuids setup otp_challenge_id otp_code _ _ h1)
              fails
              (λ proof s2 h2.
                Ends-then K _ _ _ (change_password-Kept R c uuids services _ new_password _ s2 h2)
                  fails
                  (λ changed s3 h3.
                    Ends-then K _ _ _ (log_proof-Kept R c uuids _ proof _ s3 h3) fails
                      (λ logged s4 h4.
                        Ends-then K _ _ _ (insert_audit_event-Kept R c uuids _ _ _ _ _ _ _ _ s4 h4)
                          fails
                          (λ written s5 h5. create_tenant_session-Ends _ _ _ setup.role s5 h5)))))))
