-- ===== src/Access/Otp/Verify.antt =====
-- OtpMessagingService.verify.
use io_tables.Common.{
  ℕ, ◌+◌, String, Bool, true, false, not, ◌&&◌, Option, none, some, find, update, insert, leb,
  str_eq, ◌==◌,
}
use io_tables.Database.{
  Db, OtpPurpose, same_purpose, OtpChallenge, OtpAttempt, AttemptResult, attempt_success,
  attempt_failed, attempt_expired,
}
use io_tables.Errors.{ApiError, otp_invalid, otp_locked, otp_expired}
use io_tables.Session.{
  Exec, ◌>>=◌, ◌>>◌, pure, raise_if, or_raise, query, execute, uuid4, case_option,
}
use io_tables.Access.Otp.Codes.{OtpServices, hash_code}
use io_tables.Access.Otp.Challenge.{same_tenant, attempt_count, max_attempts}

-- The keyword arguments of `verify` that say which challenge is meant.
pub record Verification : Type 0 where
  pub tenant_id : Option ℕ
  pub user_id : ℕ
  pub challenge_id : ℕ
  pub purpose : OtpPurpose
  pub target_gsm : Option String

-- `challenge_identity_conditions`
abbrev pub is_challenge : Verification → OtpChallenge → Bool
is_challenge v c =
    same_tenant v.tenant_id c.tenant_id
    && (c.id == v.challenge_id)
    && (c.user_id == v.user_id)
    && same_purpose c.purpose v.purpose

unfoldable pub load_challenge : Verification → Db → Option OtpChallenge
load_challenge v db = find (is_challenge v) db.otp_challenges

abbrev pub is_other_target : Option String → OtpChallenge → Bool
is_other_target none c = false
is_other_target (some target_gsm) c = not (str_eq c.target_gsm target_gsm)

abbrev pub new_attempt : Verification → ℕ → AttemptResult → ℕ → ℕ → OtpAttempt
new_attempt v attempt_no result now attempt_id = record {
  id = attempt_id;
  tenant_id = v.tenant_id;
  otp_challenge_id = v.challenge_id;
  attempt_no = attempt_no;
  result = result;
  created_at = now;
}

-- `_append_attempt`
unfoldable pub append_attempt : Verification → ℕ → AttemptResult → ℕ → Exec (Unit {0})
append_attempt v attempt_no result now = do
  attempt_id ← uuid4
  execute (λ db. record db {
    otp_attempts = insert (new_attempt v attempt_no result now attempt_id) db.otp_attempts;
  })

-- An attempt that is noted and then refused.
unfoldable pub refuse_attempt :
    Bool → Verification → ℕ → AttemptResult → ApiError → ℕ → Exec (Unit {0})
refuse_attempt false v attempt_no result e now = pure tt
refuse_attempt true v attempt_no result e now = do
  append_attempt v attempt_no result now
  raise_if true e

abbrev pub is_this : Verification → OtpChallenge → Bool
is_this v c = same_tenant v.tenant_id c.tenant_id && (c.id == v.challenge_id)

module _ (services : OtpServices) where
  -- `verify` on a challenge that is not verified yet.
  unfoldable pub verify_open : Verification → String → ℕ → OtpChallenge → Exec (Unit {0})
  verify_open v code now challenge = do
    attempts ← query (attempt_count v.tenant_id v.challenge_id)
    raise_if (leb max_attempts attempts) otp_locked
    refuse_attempt (leb challenge.expires_at now) v (attempts + 1) attempt_expired otp_expired now
    refuse_attempt (not (str_eq (hash_code services v.challenge_id code) challenge.code_hash)) v
        (attempts + 1) attempt_failed otp_invalid now
    append_attempt v (attempts + 1) attempt_success now
    execute (λ db. record db {
      otp_challenges =
          update (is_this v) (λ c. record c { verified_at = some now }) db.otp_challenges;
    })

  unfoldable pub verify : Verification → String → ℕ → Exec (Unit {0})
  verify v code now = do
    found ← query (load_challenge v)
    challenge ← or_raise found otp_invalid
    raise_if (is_other_target v.target_gsm challenge) otp_invalid
    case_option challenge.verified_at (verify_open v code now challenge) (λ verified_at. pure tt)
