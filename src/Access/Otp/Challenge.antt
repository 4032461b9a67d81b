-- ===== src/Access/Otp/Challenge.antt =====
-- OtpMessagingService.create_challenge.
use io_tables.Common.{
  ℕ, ◌+◌, ◌-◌, String, Bool, true, false, ◌&&◌, Option, none, some, latest, select, count, insert,
  is_none, leb, ltb, ◌==◌,
}
use io_tables.Database.{
  Db, OtpPurpose, same_purpose, OtpChallenge, OtpAttempt, MessageDelivery, message_sent,
}
use io_tables.Errors.{otp_locked}
use io_tables.Session.{Exec, ◌>>=◌, ◌>>◌, pure, raise_if, query, execute, uuid4, case_option}
use io_tables.Access.Otp.Codes.{OtpServices, hash_code, generate_code, mask_gsm}

abbrev pub otp_ttl : ℕ
otp_ttl = 300000000

abbrev pub max_attempts : ℕ
max_attempts = 5

pub record OtpChallengeState : Type 0 where
  pub challenge_id : ℕ
  pub target_hint : String
  pub expires_at : ℕ
  pub remaining_attempts : ℕ

-- `c.is_(None) if tenant_id is None else c == tenant_id`
abbrev pub same_tenant : Option ℕ → Option ℕ → Bool
same_tenant none none = true
same_tenant (some a) (some b) = a == b
same_tenant _ _ = false

abbrev pub is_active_challenge : Option ℕ → ℕ → OtpPurpose → ℕ → OtpChallenge → Bool
is_active_challenge tenant_id user_id purpose now c =
    same_tenant tenant_id c.tenant_id
    && (c.user_id == user_id)
    && same_purpose c.purpose purpose
    && ltb now c.expires_at
    && is_none c.verified_at

-- `_load_active_challenge`
unfoldable pub load_active_challenge : Option ℕ → ℕ → OtpPurpose → ℕ → Db → Option OtpChallenge
load_active_challenge tenant_id user_id purpose now db =
    latest (λ c. c.created_at)
      (select (is_active_challenge tenant_id user_id purpose now) db.otp_challenges)

-- `attempt_identity_conditions`
abbrev pub is_attempt : Option ℕ → ℕ → OtpAttempt → Bool
is_attempt tenant_id challenge_id a =
    same_tenant tenant_id a.tenant_id && (a.otp_challenge_id == challenge_id)

-- `_attempt_count`
unfoldable pub attempt_count : Option ℕ → ℕ → Db → ℕ
attempt_count tenant_id challenge_id db = count (is_attempt tenant_id challenge_id) db.otp_attempts

abbrev pub new_challenge : Option ℕ → ℕ → OtpPurpose → String → String → ℕ → ℕ → OtpChallenge
new_challenge tenant_id user_id purpose target_gsm code_hash now challenge_id = record {
  id = challenge_id;
  tenant_id = tenant_id;
  user_id = user_id;
  purpose = purpose;
  target_gsm = target_gsm;
  code_hash = code_hash;
  expires_at = now + otp_ttl;
  verified_at = none;
  created_at = now;
}

abbrev pub new_delivery : Option ℕ → ℕ → String → ℕ → ℕ → MessageDelivery
new_delivery tenant_id challenge_id provider now delivery_id = record {
  id = delivery_id;
  tenant_id = tenant_id;
  otp_challenge_id = challenge_id;
  delivery_no = 1;
  provider = provider;
  provider_message_ref = none;
  status = message_sent;
  error_summary = none;
  created_at = now;
  completed_at = some now;
}

module _ (services : OtpServices) where
  -- A challenge that is still open is answered again.
  unfoldable pub active_state : Option ℕ → OtpChallenge → Exec OtpChallengeState
  active_state tenant_id c = do
    attempts ← query (attempt_count tenant_id c.id)
    raise_if (leb max_attempts attempts) otp_locked
    pure (record {
      challenge_id = c.id;
      target_hint = mask_gsm services c.target_gsm;
      expires_at = c.expires_at;
      remaining_attempts = max_attempts - attempts;
    })

  unfoldable pub open_challenge : Option ℕ → ℕ → OtpPurpose → String → ℕ → Exec OtpChallengeState
  open_challenge tenant_id user_id purpose target_gsm now = do
    challenge_id ← uuid4
    code ← generate_code services
    execute (λ db. record db {
      otp_challenges =
          insert
            (new_challenge tenant_id user_id purpose target_gsm
              (hash_code services challenge_id code) now challenge_id)
            db.otp_challenges;
    })
    delivery_id ← uuid4
    execute (λ db. record db {
      message_deliveries =
          insert (new_delivery tenant_id challenge_id services.otp_delivery_mode now delivery_id)
            db.message_deliveries;
    })
    pure (record {
      challenge_id = challenge_id;
      target_hint = mask_gsm services target_gsm;
      expires_at = now + otp_ttl;
      remaining_attempts = max_attempts;
    })

  unfoldable pub create_challenge : Option ℕ → ℕ → OtpPurpose → String → ℕ → Exec OtpChallengeState
  create_challenge tenant_id user_id purpose target_gsm now = do
    active_challenge ← query (load_active_challenge tenant_id user_id purpose now)
    case_option active_challenge (open_challenge tenant_id user_id purpose target_gsm now)
        (active_state tenant_id)
