-- ===== src/Tests/Access.antt =====
-- A cashier sets a first password with a one-time code, logs in and logs out.
use Prim.Native.Char.{code}
use Prim.Native.String.{String}
use mathlib.Core.Option
use io_tables.Common.{
  ℕ, zero, suc, ap, ◌∙◌, Option, of_list, ◌+◌, ◌≡◌, ◌≢◌, refl, true, false, ◌&&◌, none, some, List,
  [], ◌∷◌, arith, leb, ltb, str_eq, strip, to_list, any, ◌==◌, if◌then◌else◌,
}
use io_tables.Actor.{tenant_user, ActorContext, cashier_app, cashier}
use io_tables.Database.{
  LoginSession, Db, Tenant, User, Credential, StaffProfile, StaffRoleAssignment, OtpChallenge,
  tenant_active, in_use, granted, cashier_first_password,
}
use io_tables.Errors.{otp_invalid}
use io_tables.Session.{Session, ok, err, ◌>>=◌, case_option, begin}
use io_tables.Security.Passwords.{
  PasswordServices, is_dollar, split, hash_password, verify_password,
}
use io_tables.Security.Totp.{TotpServices}
use io_tables.Security.RoundTrip.{verify_password-hash_password}
use io_tables.Access.Otp.Codes.{OtpServices, zfill}
use io_tables.Access.Otp.Challenge.{load_active_challenge, attempt_count, create_challenge}
use io_tables.Access.Otp.Verify.{
  load_challenge, verify_open, refuse_attempt, append_attempt, verify,
}
use io_tables.Access.Otp.RoundTrip.{sent_verification, sent_state, code_round_trip}
use io_tables.Access.Login.Accounts.{
  LoginServices, SetupPayload, load_tenant_user, load_tenant_setup_user, load_credential,
}
use io_tables.Access.Login.Sessions.{live_session, load_roles, logout, resolve}
use io_tables.Access.Login.Authenticate.{authenticate}
use io_tables.Access.Login.FirstPassword.{
  load_setup, parse_setup_token, prove_otp, complete_first_password_setup,
}
use io_tables.Access.Login.Lifetime.{login_answer, staff_at, login_resolves}
use io_tables.Access.Login.Requests.{account_here, logged_out_stays, complete_refused}
use io_tables.Tests.Fixture.{venue}

-- Bytes in a text: as many `a`s as the byte counts, and a `b`.
unary : ℕ → String → String
unary zero text = String.◌∷◌ "b" text
unary (suc n) text = String.◌∷◌ "a" (unary n text)

pub encode : List ℕ → String
unfolding unary
encode [] = ""
encode (n ∷ bytes) = unary n (encode bytes)

unfoldable pub decode_from : ℕ → String → Option (List ℕ)
decode_from k String.[] = some []
decode_from k (String.◌∷◌ c text) =
    let more = decode_from (suc k) text in
    let rest = decode_from 0 text in
    if code c == 97 then more else Option.map (λ bytes. k ∷ bytes) rest

counted :
    (k n : ℕ) (text : String)
    → k ≡ n
    → Option.map (λ bytes. k ∷ bytes) (decode_from 0 text)
      ≡ Option.map (λ bytes. n ∷ bytes) (decode_from 0 text)
counted k n text same = ap (λ m. Option.map (λ bytes. m ∷ bytes) (decode_from 0 text)) same

decode_from-unary :
    (k n : ℕ) (text : String)
    → decode_from k (unary n text) ≡ Option.map (λ bytes. (k + n) ∷ bytes) (decode_from 0 text)
unfolding decode_from unary
decode_from-unary k zero text = counted k (k + 0) text (omega arith)
decode_from-unary k (suc n) text =
    decode_from-unary (suc k) n text ∙ counted (suc k + n) (k + suc n) text (omega arith)

pub decode-encode : (bytes : List ℕ) → decode_from 0 (encode bytes) ≡ some bytes
unfolding encode decode_from
decode-encode [] = refl
decode-encode (n ∷ bytes) =
    decode_from-unary 0 n (encode bytes)
    ∙ counted (0 + n) n (encode bytes) (omega arith)
    ∙ ap (Option.map (λ rest. n ∷ rest)) (decode-encode bytes)

any-unary :
    (n : ℕ) (text : String) → any is_dollar (to_list (unary n text)) ≡ any is_dollar (to_list text)
unfolding unary to_list
any-unary zero text = refl
any-unary (suc n) text = any-unary n text

pub any-encode : (bytes : List ℕ) → any is_dollar (to_list (encode bytes)) ≡ false
unfolding encode to_list
any-encode [] = refl
any-encode (n ∷ bytes) = any-unary n (encode bytes) ∙ any-encode bytes

abbrev pub passwords : PasswordServices
passwords = record {
  pbkdf2_hmac = λ password salt iterations. (if str_eq password "tea" then 1 else 2) ∷ [];
  urlsafe_b64encode = encode;
  urlsafe_b64decode = decode_from 0;
  int_of = λ text. some 390000;
  token_bytes = λ random. random ∷ [];
}

verify_password-hash_password_example :
    verify_password passwords "cake" (hash_password passwords 5 "tea") ≡ false
verify_password-hash_password_example =
    verify_password-hash_password passwords 5 "tea" "cake" any-encode decode-encode refl

abbrev pub codes : OtpServices
codes = record {
  security_secret_key = "secret";
  otp_delivery_mode = "sms";
  otp_fixed_code = "000000";
  hmac_hex = λ key challenge_id text. text;
  is_digit = λ c. leb 48 (code c) && leb (code c) 57;
}

abbrev totp : TotpServices
totp = record {
  hmac_sha1 = λ key counter. [];
  b32decode = λ text. none;
  upper = λ text. text;
  is_digit = codes.is_digit;
}

abbrev pub setup_payload : SetupPayload
setup_payload = record {
  user_id = 7;
  tenant_id = some 1;
  app_scope = cashier_app;
  purpose = "first_password";
  expires_at = 1000;
}

abbrev pub services : LoginServices
services = record {
  passwords = passwords;
  codes = codes;
  token_urlsafe = λ random. "random";
  hash_session_token = λ token. token;
  lower = λ text. text;
  sql_lower = λ text. text;
  encrypt = λ payload. "setup";
  decrypt = λ token. some setup_payload;
}

abbrev cafe : Tenant
cafe = record {
  id = 1;
  name = "Cafe";
  subdomain = "cafe";
  gsm_number = "+905550012";
  sector = none;
  capacity = none;
  address = none;
  status = tenant_active;
  provisioning_error = none;
  created_at = 5;
  updated_at = 5;
}

abbrev ada : User
ada = record {
  id = 7;
  tenant_id = some 1;
  username = "ada";
  status = in_use;
  first_password_change_required = false;
  created_at = 5;
  updated_at = 5;
}

abbrev credential : Credential
credential = record {
  user_id = 7;
  password_hash = "pbkdf2_sha256$390000$b$ab";
  bootstrap_credential = false;
  changed_at = 5;
}

abbrev profile : StaffProfile
profile = record {
  user_id = 7;
  tenant_id = 1;
  display_name = "Ada";
  status = in_use;
  created_at = 5;
  updated_at = 5;
}

abbrev role : StaffRoleAssignment
role = record {
  id = 70;
  tenant_id = 1;
  user_id = 7;
  role = cashier;
  status = granted;
  created_at = 5;
  revoked_at = none;
}

abbrev staffed : Db
staffed = record venue {
  tenants = cafe ∷ [];
  users = ada ∷ [];
  credentials = credential ∷ [];
  staff_profiles = profile ∷ [];
  staff_role_assignments = role ∷ [];
}

abbrev logging_in : Session
logging_in = begin staffed (λ n. 1000 + n) (λ n. 100 + n)

login_resolves_example :
    ((authenticate services cashier_app "ada" "tea" (some "cafe") logging_in).0
      ≡ ok (login_answer services 7 1 cashier_app cashier logging_in))
    × ((now : ℕ)
        → resolve services "random" now
            (authenticate services cashier_app "ada" "tea" (some "cafe") logging_in).1.committed
          ≡ (if ltb now 28800000100
              then some (staff_at services 7 1 cashier_app cashier logging_in staffed)
              else none))
unfolding load_tenant_user load_credential verify_password split to_list of_list strip decode_from
login_resolves_example =
    login_resolves services cashier_app "ada" "tea" (some "cafe") logging_in cashier ada credential
      1 refl refl refl refl refl refl refl refl

-- Two sessions of one user, at the till and at home.
abbrev at_till : LoginSession
at_till = record {
  id = 90;
  tenant_id = some 1;
  user_id = 7;
  app_scope = cashier_app;
  session_token_hash = "till";
  issued_at = 90;
  expires_at = 5000;
  revoked_at = none;
}

abbrev leaving : Session
leaving =
    begin
      (record staffed {
        login_sessions = at_till ∷ record at_till { id = 91; session_token_hash = "home" } ∷ [];
      })
      (λ n. 2000 + n) (λ n. 200 + n)

abbrev still_there : ActorContext
still_there = record {
  actor_type = tenant_user;
  app_scope = cashier_app;
  user_id = some 7;
  tenant_id = some 1;
  roles = cashier ∷ [];
  session_id = some 90;
}

logged_out_stays_example : still_there.session_id ≢ some 91
unfolding resolve live_session load_roles logout ◌>>=◌
logged_out_stays_example =
    logged_out_stays services totp (λ secret. secret) 91 leaving _ account_here "till" 400
      still_there refl

abbrev before_code : Session
before_code = begin staffed (λ n. 1000 + n) (λ n. 100 + n)

code_round_trip_example :
    ((create_challenge codes (some 1) 7 cashier_first_password "+905550012" 100 before_code).0
      ≡ ok (sent_state codes (some 1) 7 cashier_first_password "+905550012" 100 before_code))
    × ((verify codes
          (sent_verification codes (some 1) 7 cashier_first_password "+905550012" 100 before_code)
          "001002"
          200
          (create_challenge codes
            (some 1)
            7
            cashier_first_password
            "+905550012"
            100
            before_code).1).0
        ≡ err otp_invalid)
unfolding load_active_challenge attempt_count zfill strip to_list of_list
code_round_trip_example =
    code_round_trip codes (some 1) 7 cashier_first_password "+905550012" 100 before_code refl refl
      refl refl "001002" 200

abbrev challenge : OtpChallenge
challenge = record {
  id = 9;
  tenant_id = some 1;
  user_id = 7;
  purpose = cashier_first_password;
  target_gsm = "+905550012";
  code_hash = "123456";
  expires_at = 1000;
  verified_at = none;
  created_at = 90;
}

-- The user with the password that the venue gave out.
abbrev new_staff : Db
new_staff = record staffed {
  users = record ada { first_password_change_required = true } ∷ [];
  credentials = record credential { bootstrap_credential = true } ∷ [];
  otp_challenges = challenge ∷ [];
}

abbrev guessing : Session
guessing = begin new_staff (λ n. 1000 + n) (λ n. 100 + n)

wrong_code :
    (complete_first_password_setup services "setup" "long enough"
      (some 9)
      (some "000000")
      guessing).0
    ≡ err otp_invalid
unfolding complete_first_password_setup load_setup parse_setup_token load_tenant_setup_user
    prove_otp verify load_challenge verify_open attempt_count refuse_attempt append_attempt strip
    to_list of_list case_option ◌>>=◌
wrong_code = refl

complete_refused_example :
    (complete_first_password_setup services "setup" "long enough"
      (some 9)
      (some "000000")
      guessing).1.committed
    ≡ new_staff
complete_refused_example =
    complete_refused services "setup" "long enough" (some 9) (some "000000") guessing wrong_code
