-- ===== src/Access/Login/Pending.antt =====
-- What the steps of a first password do before the commit: they keep the login sessions, and
-- commit nothing.
use io_tables.Common.{ℕ, String, ◌≡◌, Bool, true, false, Option, List}
use io_tables.Database.{Db, LoginSession, OtpChallenge, OtpPurpose, AttemptResult}
use io_tables.Errors.{ApiError}
use io_tables.Session.{Session}
use io_tables.Session.Ends.{
  Ends, Ends-then, Ends-pure, Ends-query, Ends-or_raise, Ends-raise_if, Ends-raise_if_last,
  Ends-execute, Ends-execute_last, Ends-uuid4, ends_rules,
}
use io_tables.Access.Otp.Codes.{OtpServices, generate_code}
use io_tables.Access.Otp.Challenge.{create_challenge, open_challenge, active_state}
use io_tables.Access.Otp.Verify.{Verification, append_attempt, refuse_attempt, verify_open, verify}
use io_tables.Access.Login.Accounts.{LoginServices, SetupUser}
use io_tables.Access.Login.FirstPassword.{
  load_setup, parse_setup_token, insert_audit_event, prove_otp, change_password, log_proof,
}

-- Nothing but `c` is committed, and where the call returned the login sessions satisfy `R` and the
-- random values to come are the same.
abbrev pub Kept : (List LoginSession → Type 0) → Db → (ℕ → ℕ) → Bool → Session → Type 0
Kept R c uuids true s = (s.committed ≡ c) × (R s.db.login_sessions) × (s.uuids ≡ uuids)
Kept R c uuids false s = s.committed ≡ c

module _ (R : List LoginSession → Type 0) (c : Db) (uuids : ℕ → ℕ) where
  pub load_setup-Kept :
      (services : LoginServices) (setup_token : String) (s : Session)
      → Kept R c uuids true s
      → Ends (Kept R c uuids) (load_setup services setup_token s)
  unfolding load_setup parse_setup_token
  load_setup-Kept services setup_token s h = search ends_rules depth 40

  append_attempt-Kept :
      (v : Verification) (attempt_no : ℕ) (result : AttemptResult) (now : ℕ) (s : Session)
      → Kept R c uuids true s
      → Ends (Kept R c uuids) (append_attempt v attempt_no result now s)
  unfolding append_attempt
  append_attempt-Kept v attempt_no result now s h = search ends_rules depth 20

  pub insert_audit_event-Kept :
      (tenant_id : Option ℕ) (actor_user_id : ℕ) (action target_type : String) (target_id : ℕ)
      (key value : String) (now : ℕ) (s : Session)
      → Kept R c uuids true s
      → Ends
          (Kept R c uuids)
          (insert_audit_event tenant_id actor_user_id action target_type target_id key value now s)
  unfolding insert_audit_event
  insert_audit_event-Kept tenant_id actor_user_id action target_type target_id key value now s h =
      search ends_rules depth 20

  pub change_password-Kept :
      (services : LoginServices) (u : SetupUser) (new_password : String) (now : ℕ) (s : Session)
      → Kept R c uuids true s
      → Ends (Kept R c uuids) (change_password services u new_password now s)
  unfolding change_password
  change_password-Kept services u new_password now s h = search ends_rules depth 20

  pub log_proof-Kept :
      (u : SetupUser) (proof : Option (ℕ × OtpPurpose)) (now : ℕ) (s : Session)
      → Kept R c uuids true s
      → Ends (Kept R c uuids) (log_proof u proof now s)
  unfolding log_proof
  log_proof-Kept u proof now s h = search (ends_rules, insert_audit_event-Kept) depth 20

  refuse_attempt-Kept :
      (b : Bool) (v : Verification) (attempt_no : ℕ) (result : AttemptResult) (e : ApiError)
      (now : ℕ) (s : Session)
      → Kept R c uuids true s
      → Ends (Kept R c uuids) (refuse_attempt b v attempt_no result e now s)
  unfolding refuse_attempt
  refuse_attempt-Kept false v attempt_no result e now s h = Ends-pure _ _ h
  refuse_attempt-Kept true v attempt_no result e now s h =
      Ends-then (Kept R c uuids) _ _ s (append_attempt-Kept v attempt_no result now s h) (λ s' k. k)
        (λ u s' k. Ends-raise_if_last _ _ _ k.0 k)

  verify_open-Kept :
      (services : OtpServices) (v : Verification) (code : String) (now : ℕ)
      (challenge : OtpChallenge) (s : Session)
      → Kept R c uuids true s
      → Ends (Kept R c uuids) (verify_open services v code now challenge s)
  unfolding verify_open
  verify_open-Kept services v code now challenge s h = Ends-query _ _ _ (
      Ends-raise_if _ _ _ _ h.0 (λ free.
        Ends-then (Kept R c uuids) _ _ s (refuse_attempt-Kept _ v _ _ _ now s h) (λ s' k. k)
          (λ u s' k.
            Ends-then (Kept R c uuids) _ _ s' (refuse_attempt-Kept _ v _ _ _ now s' k) (λ t l. l)
              (λ u' s'' k'.
                Ends-then (Kept R c uuids) _ _ s'' (append_attempt-Kept v _ _ now s'' k') (λ t l. l)
                  (λ u'' t l. Ends-execute_last _ _ l)))))

  verify-Kept :
      (services : OtpServices) (v : Verification) (code : String) (now : ℕ) (s : Session)
      → Kept R c uuids true s
      → Ends (Kept R c uuids) (verify services v code now s)
  unfolding verify
  verify-Kept services v code now s h = search (ends_rules, verify_open-Kept) depth 20

  pub prove_otp-Kept :
      (services : LoginServices) (u : SetupUser) (otp_purpose : OtpPurpose)
      (otp_challenge_id : Option ℕ) (otp_code : Option String) (now : ℕ) (s : Session)
      → Kept R c uuids true s
      → Ends (Kept R c uuids) (prove_otp services u otp_purpose otp_challenge_id otp_code now s)
  unfolding prove_otp
  prove_otp-Kept services u otp_purpose otp_challenge_id otp_code now s h =
      Ends-or_raise _ _ _ _ h.0 (λ challenge_id asked. Ends-or_raise _ _ _ _ h.0 (λ code at_code.
        Ends-then (Kept R c uuids) _ _ s (verify-Kept services.codes _ code now s h) (λ s' k. k)
          (λ proved s' k. Ends-pure _ _ k)))

  generate_code-Kept :
      (services : OtpServices) (s : Session)
      → Kept R c uuids true s
      → Ends (Kept R c uuids) (generate_code services s)
  unfolding generate_code
  generate_code-Kept services s h = search ends_rules depth 20

  open_challenge-Kept :
      (services : OtpServices) (tenant_id : Option ℕ) (user_id : ℕ) (purpose : OtpPurpose)
      (target_gsm : String) (now : ℕ) (s : Session)
      → Kept R c uuids true s
      → Ends (Kept R c uuids) (open_challenge services tenant_id user_id purpose target_gsm now s)
  unfolding open_challenge
  open_challenge-Kept services tenant_id user_id purpose target_gsm now s h = Ends-uuid4 _ _ (
      Ends-then (Kept R c uuids) _ _ _ (generate_code-Kept services _ h) (λ s' k. k)
        (λ code s' k. Ends-execute _ _ _ (Ends-uuid4 _ _ (Ends-execute _ _ _ (Ends-pure _ _ k)))))

  pub create_challenge-Kept :
      (services : OtpServices) (tenant_id : Option ℕ) (user_id : ℕ) (purpose : OtpPurpose)
      (target_gsm : String) (now : ℕ) (s : Session)
      → Kept R c uuids true s
      → Ends (Kept R c uuids) (create_challenge services tenant_id user_id purpose target_gsm now s)
  unfolding create_challenge active_state
  create_challenge-Kept services tenant_id user_id purpose target_gsm now s h =
      search (ends_rules, open_challenge-Kept) depth 20
