-- ===== src/Access/Login/Enroll.antt =====
-- enroll_platform_totp of modules/access/identity.py.
use Prim.Native.String.{String}
use Prim.Native.Nat.{◌/◌}
use io_tables.Common.{ℕ, true, not, ◌&&◌, Option, none, find, insert, is_none, ◌==◌}
use io_tables.Database.{Db, TotpFactor}
use io_tables.Errors.{totp_invalid, totp_already_enrolled, unexpected_error}
use io_tables.Session.{Exec, ◌>>=◌, ◌>>◌, raise_if, or_raise, query, execute, utc_now}
use io_tables.Security.Totp.{TotpServices, verify_totp_code}
use io_tables.Access.Login.Accounts.{LoginServices}
use io_tables.Access.Login.Sessions.{LoginResult, create_platform_session}
use io_tables.Access.Login.Authenticate.{validate_platform_password}
use io_tables.Access.Login.FirstPassword.{insert_audit_event}

-- `_load_totp_factor`
unfoldable pub load_totp_factor : ℕ → Db → Option TotpFactor
load_totp_factor user_id db = find (λ f. (f.user_id == user_id) && f.enabled) db.totp_factors

abbrev pub new_factor : ℕ → String → ℕ → TotpFactor
new_factor user_id secret_ciphertext now = record {
  user_id = user_id;
  secret_ciphertext = secret_ciphertext;
  enrolled_at = now;
  enabled = true;
}

-- `time.time()` reads the clock as well, in seconds. `encrypt_totp_secret` is Fernet under the
-- secret key.
module _ (services : LoginServices) (totp : TotpServices)
    (encrypt_totp_secret : String → String) where
  unfoldable pub check_totp : String → String → Exec (Unit {0})
  check_totp secret totp_code = do
    time ← utc_now
    is_valid ← or_raise (verify_totp_code totp secret totp_code (time / 1000000)) unexpected_error
    raise_if (not is_valid) totp_invalid

  unfoldable pub enroll_user : ℕ → String → Exec LoginResult
  enroll_user user_id secret = do
    now ← utc_now
    existing_factor ← query (load_totp_factor user_id)
    raise_if (not (is_none existing_factor)) totp_already_enrolled
    execute (λ db. record db {
      totp_factors = insert (new_factor user_id (encrypt_totp_secret secret) now) db.totp_factors;
    })
    insert_audit_event none user_id "platform_owner.totp_enrolled" "user" user_id "method" "totp"
        now
    create_platform_session services user_id

  unfoldable pub enroll_platform_totp : String → String → String → String → Exec LoginResult
  enroll_platform_totp username password secret totp_code = do
    user_row ← validate_platform_password services username password
    check_totp secret totp_code
    enroll_user user_row.id secret
