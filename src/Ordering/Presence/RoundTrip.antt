-- ===== src/Ordering/Presence/RoundTrip.antt =====
-- From the display's QR code to the guest's session.
use io_tables.Common.{
  given, ap, ◌∙◌, count, count-insert, count-none, ◌≤◌, Bool-cases, inl, inr, leb, ℕ, ◌+◌, suc, ◌≡◌,
  refl, String, true, Option, none, some, find, [], ◌∷◌, ltb, str_eq, eq_refl, arith, find-append,
  find-sharper_none, if◌then◌else◌, ◌==◌, insert, update, ==_refl,
}
use io_tables.Database.{Db, TableAccessToken, TableDisplayCredential, VenueTable, is_physical}
use io_tables.Errors.{token_expired}
use io_tables.Session.{Session, ok, err, ◌>>=◌, begin, case_option}
use io_tables.Ordering.Presence.Queries.{
  PresenceServices, QrTokenPayload, load_active_display_credential, load_enabled_table,
  load_customer_session_by, consumable_token, token_by_hash, is_consumable, generate_token,
  new_token, table_access_token_ttl,
}
use io_tables.Ordering.Presence.Issue.{issue_token_for_table, issue_current_qr_token}
use io_tables.Ordering.Presence.Redeem.{redeem_token}
use io_tables.Ordering.Presence.Decide.{redeem_token-refused}
use io_tables.Ordering.Presence.Accept.{
  load_customer_session-same, started_answer, redeem_token_starts,
}

module _ (services : PresenceServices) (credential : TableDisplayCredential) (s : Session) where
  abbrev pub issued_token : TableAccessToken
  issued_token =
      new_token credential.tenant_id credential.table_id
        (services.hash_table_access_token (services.token_urlsafe (s.uuids s.drawn)))
        (s.clock s.read) (s.uuids (suc s.drawn))

  abbrev pub issued_db : Db
  issued_db = record s.db {
    table_access_tokens = insert issued_token s.db.table_access_tokens;
    table_display_credentials =
        update (λ c. c.id == credential.id) (λ c. record c { last_seen_at = some (s.clock s.read) })
          s.db.table_display_credentials;
  }

  abbrev pub issued_session : Session
  issued_session = record s {
    db = issued_db;
    committed = issued_db;
    drawn = suc (suc s.drawn);
    read = suc s.read;
  }

  abbrev pub payload : QrTokenPayload
  payload = record {
    qr_token = services.token_urlsafe (s.uuids s.drawn);
    expires_at = s.clock s.read + table_access_token_ttl;
    refresh_after_seconds = 60;
  }

  pub issue_current_qr_token_accepts :
      (display_credential : String) (table : VenueTable)
      → load_active_display_credential (services.hash_display_credential display_credential) s.db
        ≡ some credential
      → load_enabled_table credential.tenant_id credential.table_id s.db ≡ some table
      → is_physical table.mode ≡ true
      → issue_current_qr_token services display_credential s ≡ (ok payload, issued_session)
  unfolding issue_current_qr_token issue_token_for_table generate_token case_option ◌>>=◌
  issue_current_qr_token_accepts display_credential table at_credential at_table physical =
      simp (at_credential, at_table, physical)

  module _
      (unused : find
          (λ t.
            str_eq t.token_hash
              (services.hash_table_access_token (services.token_urlsafe (s.uuids s.drawn))))
          s.db.table_access_tokens
        ≡ none) where
    one_issued :
        count
          (λ t.
            str_eq t.token_hash
              (services.hash_table_access_token (services.token_urlsafe (s.uuids s.drawn))))
          issued_db.table_access_tokens
        ≤ 1
    one_issued = grind (
      arith,
      count-insert
          (λ t.
            str_eq t.token_hash
              (services.hash_table_access_token (services.token_urlsafe (s.uuids s.drawn))))
          issued_token s.db.table_access_tokens,
      count-none
          (λ t.
            str_eq t.token_hash
              (services.hash_table_access_token (services.token_urlsafe (s.uuids s.drawn))))
          s.db.table_access_tokens unused,
    )

    token_by_hash-issued :
        token_by_hash
          (services.hash_table_access_token (services.token_urlsafe (s.uuids s.drawn)))
          issued_db
        ≡ some issued_token
    unfolding token_by_hash
    token_by_hash-issued = ground (
      arith,
      eq_refl (services.hash_table_access_token (services.token_urlsafe (s.uuids s.drawn))),
      find-append
          (λ t.
            str_eq t.token_hash
              (services.hash_table_access_token (services.token_urlsafe (s.uuids s.drawn))))
          s.db.table_access_tokens (issued_token ∷ []),
    )

    consumable_token-issued :
        (now : ℕ)
        → consumable_token credential.tenant_id
            (services.hash_table_access_token (services.token_urlsafe (s.uuids s.drawn)))
            now
            issued_db
          ≡ (if ltb now (s.clock s.read + table_access_token_ttl) then some issued_token else none)
    unfolding consumable_token
    consumable_token-issued now = ground (
      arith,
      ==_refl credential.tenant_id,
      eq_refl (services.hash_table_access_token (services.token_urlsafe (s.uuids s.drawn))),
      find-append
          (is_consumable credential.tenant_id
            (services.hash_table_access_token (services.token_urlsafe (s.uuids s.drawn))) now)
          s.db.table_access_tokens (issued_token ∷ []),
      find-sharper_none
          (λ t.
            str_eq t.token_hash
              (services.hash_table_access_token (services.token_urlsafe (s.uuids s.drawn))))
          (is_consumable credential.tenant_id
            (services.hash_table_access_token (services.token_urlsafe (s.uuids s.drawn))) now)
          (λ t h. ground arith) s.db.table_access_tokens unused,
    )

    redeem-issued :
        (table : VenueTable) (cookie : Option String) (uuids clock : ℕ → ℕ)
        → load_enabled_table credential.tenant_id credential.table_id s.db ≡ some table
        → load_customer_session_by services (clock 0) (given cookie) s.db ≡ none
        → (redeem_token services credential.tenant_id payload.qr_token cookie
            (begin issued_db uuids clock)).0
          ≡ (if ltb (clock 0) payload.expires_at
              then ok (
                  started_answer services credential.tenant_id payload.qr_token cookie issued_token
                    table
                    (begin issued_db uuids clock))
              else err token_expired)
    unfolding load_enabled_table
    redeem-issued table cookie uuids clock at_table no_session =
        elim (Bool-cases (ltb (clock 0) (s.clock s.read + table_access_token_ttl))) [
          | inl alive ↦ rw alive (
              ap (λ o. o.0)
                (redeem_token_starts services credential.tenant_id payload.qr_token cookie
                  issued_token table (begin issued_db uuids clock)
                  (rw (consumable_token-issued (clock 0))
                    (ap (λ b. if b then some issued_token else none) alive))
                  at_table
                  (load_customer_session-same services (clock 0) (given cookie) issued_db s.db refl
                    ∙ no_session)))
          | inr over ↦
              let out : leb (s.clock s.read + table_access_token_ttl) (clock 0) ≡ true =
                ground arith in
              rw over (
                redeem_token-refused services credential.tenant_id payload.qr_token cookie
                  (begin issued_db uuids clock) token_expired refl one_issued
                  (simp (token_by_hash-issued, out)))
        ]

-- A display in use, of an enabled physical table, is shown a token. Where no earlier token has its
-- hash, the next request, from a browser without a live customer session, that redeems it at the
-- display's tenant starts a session at this table at every time before the sixty seconds are over,
-- and is refused as expired from then on.
pub issued_token_redeems :
    (services : PresenceServices) (display_credential : String)
    (credential : TableDisplayCredential) (table : VenueTable) (cookie : Option String)
    (s : Session) (uuids clock : ℕ → ℕ)
    → load_active_display_credential (services.hash_display_credential display_credential) s.db
      ≡ some credential
    → load_enabled_table credential.tenant_id credential.table_id s.db ≡ some table
    → is_physical table.mode ≡ true
    → find
        (λ t.
          str_eq t.token_hash
            (services.hash_table_access_token (services.token_urlsafe (s.uuids s.drawn))))
        s.db.table_access_tokens
      ≡ none
    → load_customer_session_by services (clock 0) (given cookie) s.db ≡ none
    → ((issue_current_qr_token services display_credential s).0
        ≡ ok (payload services credential s))
      × ((redeem_token services credential.tenant_id
            (payload services credential s).qr_token
            cookie
            (begin
              (issue_current_qr_token services display_credential s).1.committed
              uuids
              clock)).0
          ≡ (if ltb (clock 0) (payload services credential s).expires_at
              then ok (
                  started_answer services credential.tenant_id
                    (payload services credential s).qr_token
                    cookie
                    (issued_token services credential s)
                    table
                    (begin (issued_db services credential s) uuids clock))
              else err token_expired))
issued_token_redeems services display_credential credential table cookie s uuids clock at_credential
      at_table physical unused no_session =
    rw
      (issue_current_qr_token_accepts services credential s display_credential table at_credential
        at_table physical)
      (
        refl,
        redeem-issued services credential s unused table cookie uuids clock at_table no_session,
      )
