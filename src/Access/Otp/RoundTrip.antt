-- ===== src/Access/Otp/RoundTrip.antt =====
-- From the message with a code to its verification.
use io_tables.Common.{
  ℕ, suc, ◌+◌, ◌≡◌, refl, String, true, false, Option, none, some, [], ◌∷◌, find, insert, leb,
  str_eq, arith, find-append, Bool-cases, inl, inr, ==_refl, if◌then◌else◌,
}
use io_tables.Database.{Db, OtpPurpose, same_purpose, OtpChallenge}
use io_tables.Errors.{otp_expired, otp_invalid}
use io_tables.Session.{Session, Result, ok, err, ◌>>=◌, case_option}
use io_tables.Access.Otp.Codes.{OtpServices, hash_code, random_code, generate_code, mask_gsm}
use io_tables.Access.Otp.Challenge.{
  OtpChallengeState, otp_ttl, max_attempts, same_tenant, load_active_challenge, attempt_count,
  new_challenge, new_delivery, open_challenge, create_challenge,
}
use io_tables.Access.Otp.Verify.{
  Verification, is_challenge, load_challenge, append_attempt, refuse_attempt, verify_open, verify,
}

same_tenant_refl : (tenant_id : Option ℕ) → same_tenant tenant_id tenant_id ≡ true
same_tenant_refl none = refl
same_tenant_refl (some t) = ==_refl t

same_purpose_refl : (p : OtpPurpose) → same_purpose p p ≡ true
same_purpose_refl p = ground arith

module _ (services : OtpServices) (tenant_id : Option ℕ) (user_id : ℕ) (purpose : OtpPurpose)
    (target_gsm : String) (now : ℕ) (s : Session) where
  -- The code that is sent, where it is a random one.
  abbrev pub sent_code : String
  sent_code = random_code (s.uuids (suc s.drawn))

  abbrev pub sent_challenge : OtpChallenge
  sent_challenge =
      new_challenge tenant_id user_id purpose target_gsm
        (hash_code services (s.uuids s.drawn) sent_code) now (s.uuids s.drawn)

  abbrev pub sent_db : Db
  sent_db = record s.db {
    otp_challenges = insert sent_challenge s.db.otp_challenges;
    message_deliveries =
        insert
          (new_delivery tenant_id (s.uuids s.drawn) services.otp_delivery_mode now
            (s.uuids (suc (suc s.drawn))))
          s.db.message_deliveries;
  }

  abbrev pub sent_session : Session
  sent_session = record s { db = sent_db; drawn = suc (suc (suc s.drawn)) }

  abbrev pub sent_state : OtpChallengeState
  sent_state = record {
    challenge_id = s.uuids s.drawn;
    target_hint = mask_gsm services target_gsm;
    expires_at = now + otp_ttl;
    remaining_attempts = max_attempts;
  }

  abbrev pub sent_verification : Verification
  sent_verification = record {
    tenant_id = tenant_id;
    user_id = user_id;
    challenge_id = s.uuids s.drawn;
    purpose = purpose;
    target_gsm = none;
  }

  create_challenge_opens :
      str_eq services.otp_delivery_mode "fixed" ≡ false
      → load_active_challenge tenant_id user_id purpose now s.db ≡ none
      → create_challenge services tenant_id user_id purpose target_gsm now s
        ≡ (ok sent_state, sent_session)
  unfolding create_challenge open_challenge generate_code case_option ◌>>=◌
  create_challenge_opens random none_open = simp (none_open, random)

  load_challenge-sent :
      find (is_challenge sent_verification) s.db.otp_challenges ≡ none
      → load_challenge sent_verification sent_db ≡ some sent_challenge
  unfolding load_challenge
  load_challenge-sent unused = ground (
    arith,
    same_tenant_refl tenant_id,
    same_purpose_refl purpose,
    ==_refl user_id,
    ==_refl (s.uuids s.drawn),
    find-append (is_challenge sent_verification) s.db.otp_challenges (sent_challenge ∷ []),
  )

  -- What is answered to a code that is typed later.
  abbrev pub code_verdict : String → ℕ → Result (Unit {0})
  code_verdict typed later =
      if leb (now + otp_ttl) later
      then err otp_expired
      else (if str_eq (hash_code services (s.uuids s.drawn) typed)
            (hash_code services (s.uuids s.drawn) sent_code)
          then ok tt
          else err otp_invalid)

  verify-sent :
      (typed : String) (later : ℕ)
      → find (is_challenge sent_verification) s.db.otp_challenges ≡ none
      → attempt_count tenant_id (s.uuids s.drawn) s.db ≡ 0
      → (verify services sent_verification typed later sent_session).0 ≡ code_verdict typed later
  unfolding verify verify_open refuse_attempt append_attempt attempt_count case_option ◌>>=◌
  verify-sent typed later unused untried = elim (Bool-cases (leb (now + otp_ttl) later)) [
    | inl over ↦ simp (load_challenge-sent unused, untried, over)
    | inr valid ↦
        elim (Bool-cases (
          str_eq (hash_code services (s.uuids s.drawn) typed)
            (hash_code services (s.uuids s.drawn) sent_code))) [
              | inl right ↦ simp (load_challenge-sent unused, untried, valid, right)
              | inr wrong ↦ simp (load_challenge-sent unused, untried, valid, wrong)
            ]
  ]

-- Where no challenge is open for the user and purpose, and the random id of the new one is not yet
-- used, a challenge with a random code is opened, and to a code that is typed afterwards the answer
-- is: expired from the end of the five minutes on, before that yes exactly where its hash is the
-- hash of the code that was sent, and invalid for every other.
pub code_round_trip :
    (services : OtpServices) (tenant_id : Option ℕ) (user_id : ℕ) (purpose : OtpPurpose)
    (target_gsm : String) (now : ℕ) (s : Session)
    → str_eq services.otp_delivery_mode "fixed" ≡ false
    → load_active_challenge tenant_id user_id purpose now s.db ≡ none
    → find
        (is_challenge (sent_verification services tenant_id user_id purpose target_gsm now s))
        s.db.otp_challenges
      ≡ none
    → attempt_count tenant_id (s.uuids s.drawn) s.db ≡ 0
    → (typed : String) (later : ℕ)
    → ((create_challenge services tenant_id user_id purpose target_gsm now s).0
        ≡ ok (sent_state services tenant_id user_id purpose target_gsm now s))
      × ((verify services
            (sent_verification services tenant_id user_id purpose target_gsm now s)
            typed
            later
            (create_challenge services tenant_id user_id purpose target_gsm now s).1).0
          ≡ code_verdict services tenant_id user_id purpose target_gsm now s typed later)
code_round_trip services tenant_id user_id purpose target_gsm now s random none_open unused untried
      typed later =
    rw (create_challenge_opens services tenant_id user_id purpose target_gsm now s random none_open)
      (
        refl,
        verify-sent services tenant_id user_id purpose target_gsm now s typed later unused untried,
      )
