-- ===== src/Access/Login/FirstPassword.antt =====
-- begin_first_password_setup and complete_first_password_setup of modules/access/identity.py, with
-- parse_setup_token of security/setup_token.py.
use Prim.Native.String.{String}
use io_tables.Common.{
  ℕ, Bool, true, false, not, ◌&&◌, Option, none, some, [], ◌∷◌, update, insert, leb, ltb, str_eq,
  given, to_list, length, ◌==◌,
}
use io_tables.Actor.{AppScope, StaffRole}
use io_tables.Database.{
  OtpPurpose, tenant_creation, staff_password_reset, tenant_admin_first_password,
  cashier_first_password, station_staff_first_password, service_staff_first_password, text,
}
use io_tables.Errors.{setup_token_invalid, password_policy_failed, otp_required}
use io_tables.Session.{
  Exec, ◌>>=◌, ◌>>◌, pure, raise_if, or_raise, query, execute, commit, uuid4, utc_now, case_option,
}
use io_tables.Security.Passwords.{hash_password}
use io_tables.Access.Otp.Challenge.{create_challenge}
use io_tables.Access.Otp.Verify.{Verification, verify}
use io_tables.Access.Login.Accounts.{
  LoginServices, SetupPayload, SetupUser, required_role_of, otp_purpose_of, first_password_purpose,
  in_tenant, load_tenant_setup_user,
}
use io_tables.Access.Login.Sessions.{LoginResult, create_tenant_session}

-- Its `status` says whether a code is required.
pub record FirstPasswordSetupState : Type 0 where
  pub otp_required : Bool
  pub setup_token : String
  pub otp_challenge_id : Option ℕ
  pub target_hint : Option String
  pub expires_at : Option ℕ
  pub remaining_attempts : Option ℕ

-- The word that the database stores.
abbrev pub purpose_text : OtpPurpose → String
purpose_text tenant_creation = "tenant_creation"
purpose_text staff_password_reset = "staff_password_reset"
purpose_text tenant_admin_first_password = "tenant_admin_first_password"
purpose_text cashier_first_password = "cashier_first_password"
purpose_text station_staff_first_password = "station_staff_first_password"
purpose_text service_staff_first_password = "service_staff_first_password"

-- `_insert_audit_event`, whose metadata is one text.
unfoldable pub insert_audit_event :
    Option ℕ → ℕ → String → String → ℕ → String → String → ℕ → Exec (Unit {0})
insert_audit_event tenant_id actor_user_id action target_type target_id key value now = do
  event_id ← uuid4
  execute (λ db. record db {
    audit_events =
        insert
          (record {
            id = event_id;
            tenant_id = tenant_id;
            actor_user_id = some actor_user_id;
            action = action;
            target_type = target_type;
            target_id = target_id;
            reason = none;
            metadata = (key, text value) ∷ [];
            created_at = now;
          })
          db.audit_events;
  })

unfoldable pub log_proof : SetupUser → Option (ℕ × OtpPurpose) → ℕ → Exec (Unit {0})
log_proof u proof now = case_option proof (pure tt) (λ p.
    insert_audit_event (some u.tenant_id) u.id "otp.verified" "otp_challenge" p.0 "purpose"
      (purpose_text p.1) now)

-- A setup token and the user that it stands for.
pub record Setup : Type 0 where
  pub app_scope : AppScope
  pub role : StaffRole
  pub user : SetupUser

abbrev pub verification : SetupUser → OtpPurpose → ℕ → Verification
verification u otp_purpose challenge_id = record {
  tenant_id = some u.tenant_id;
  user_id = u.id;
  challenge_id = challenge_id;
  purpose = otp_purpose;
  target_gsm = none;
}

module _ (services : LoginServices) where
  -- `_parse_first_password_setup_token`
  unfoldable pub parse_setup_token : String → Exec SetupPayload
  parse_setup_token setup_token = do
    payload ← or_raise (services.decrypt setup_token) setup_token_invalid
    now ← utc_now
    raise_if (leb payload.expires_at now) setup_token_invalid
    raise_if (not (str_eq payload.purpose first_password_purpose)) setup_token_invalid
    pure payload

  -- What both methods begin with.
  unfoldable pub load_setup : String → Exec Setup
  load_setup setup_token = do
    payload ← parse_setup_token setup_token
    role ← or_raise (required_role_of payload.app_scope) setup_token_invalid
    found ← query (load_tenant_setup_user payload.user_id payload.tenant_id role)
    user_row ← or_raise found setup_token_invalid
    raise_if (not user_row.first_password_change_required) setup_token_invalid
    raise_if (not user_row.bootstrap_credential) setup_token_invalid
    pure (record { app_scope = payload.app_scope; role = role; user = user_row })

  unfoldable pub begin_first_password_setup : String → Exec FirstPasswordSetupState
  begin_first_password_setup setup_token = do
    setup ← load_setup setup_token
    now ← utc_now
    case_option (otp_purpose_of setup.app_scope)
        (pure (record {
          otp_required = false;
          setup_token = setup_token;
          otp_challenge_id = none;
          target_hint = none;
          expires_at = none;
          remaining_attempts = none;
        }))
        (λ otp_purpose.
          create_challenge services.codes (some setup.user.tenant_id) setup.user.id otp_purpose
            setup.user.tenant_gsm now
          >>= λ challenge.
              commit
              >> pure (record {
                otp_required = true;
                setup_token = setup_token;
                otp_challenge_id = some challenge.challenge_id;
                target_hint = some challenge.target_hint;
                expires_at = some challenge.expires_at;
                remaining_attempts = some challenge.remaining_attempts;
              }))

  -- The proof by a one-time code; it returns the challenge.
  unfoldable pub prove_otp :
      SetupUser → OtpPurpose → Option ℕ → Option String → ℕ → Exec (Option (ℕ × OtpPurpose))
  prove_otp u otp_purpose otp_challenge_id otp_code now = do
    challenge_id ← or_raise otp_challenge_id otp_required
    code ← or_raise (given otp_code) otp_required
    verify services.codes (verification u otp_purpose challenge_id) code now
    pure (some (challenge_id, otp_purpose))

  unfoldable pub change_password : SetupUser → String → ℕ → Exec (Unit {0})
  change_password u new_password now = do
    random ← uuid4
    execute (λ db. record db {
      credentials =
          update (λ c. c.user_id == u.id)
            (λ c. record c {
              password_hash = hash_password services.passwords random new_password;
              bootstrap_credential = false;
              changed_at = now;
            })
            db.credentials;
    })
    execute (λ db. record db {
      users =
          update (λ x. (x.id == u.id) && in_tenant u.tenant_id x.tenant_id)
            (λ x. record x { first_password_change_required = false; updated_at = now }) db.users;
    })

  unfoldable pub complete_first_password_setup :
      String → String → Option ℕ → Option String → Exec LoginResult
  complete_first_password_setup setup_token new_password otp_challenge_id otp_code = do
    raise_if (ltb (length (to_list new_password)) 8) password_policy_failed
    setup ← load_setup setup_token
    now ← utc_now
    proof ←
        case_option (otp_purpose_of setup.app_scope) (pure none)
          (λ otp_purpose. prove_otp setup.user otp_purpose otp_challenge_id otp_code now)
    change_password setup.user new_password now
    log_proof setup.user proof now
    insert_audit_event (some setup.user.tenant_id) setup.user.id "password.changed" "user"
        setup.user.id "flow" first_password_purpose now
    create_tenant_session services setup.user.id setup.user.tenant_id setup.app_scope setup.role
