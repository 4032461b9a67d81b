-- ===== src/Ordering/Presence/Window.antt =====
-- How long a redeemed token lets a guest order.
use io_tables.Common.{
  given, is_empty, Bool-cases, inl, inr, leb, not, ℕ, ◌+◌, suc, ◌≡◌, String, true, false, ◌&&◌,
  Option, none, some, find, [], ◌∷◌, ltb, str_eq, eq_refl, arith, find-append, find-sharper_none,
  if◌then◌else◌,
}
use io_tables.Database.{TableAccessToken, VenueTable, CustomerOrderingSession}
use io_tables.Errors.{fresh_presence_required, session_expired}
use io_tables.Session.{Session, Result, ok, err, ◌>>=◌, begin}
use io_tables.Ordering.Submit.Rows.{load_customer_session_row}
use io_tables.Ordering.Presence.Queries.{
  PresenceServices, PresenceState, load_enabled_table, fresh_presence_ttl, customer_session_ttl,
  load_customer_session_by, consumable_token, current_open_table_session_id, new_customer_session,
}
use io_tables.Ordering.Presence.Redeem.{redeem_token, get_presence_state}
use io_tables.Ordering.Presence.Accept.{started_db, redeem_token_starts}

pub ltb-leb : (a b : ℕ) → leb a b ≡ not (ltb b a)
ltb-leb a b = ground arith

module _ (token : TableAccessToken) (table : VenueTable) (s : Session) where
  abbrev pub presence : PresenceState
  presence = record {
    customer_ordering_session_id = s.uuids (suc s.drawn);
    table_id = token.table_id;
    hall_id = table.hall_id;
    fresh_until = s.clock s.read + fresh_presence_ttl;
    fresh = true;
  }

  -- What a guest is told of their presence at a time after a token was redeemed at another.
  abbrev pub presence_at : ℕ → Result PresenceState
  presence_at now =
      if ltb now (s.clock s.read + fresh_presence_ttl)
      then ok presence
      else (if ltb now (s.clock s.read + customer_session_ttl)
          then err fresh_presence_required
          else err session_expired)

module _ (services : PresenceServices) (tenant_id : ℕ) (raw_qr_token : String)
    (cookie : Option String) (token : TableAccessToken) (table : VenueTable) (s : Session)
    (new_cookie : find
        (λ o.
          str_eq o.cookie_token_hash
            (services.hash_customer_session_token (services.token_urlsafe (s.uuids s.drawn))))
        s.db.customer_ordering_sessions
      ≡ none) where
  abbrev cookie_token : String
  cookie_token = services.token_urlsafe (s.uuids s.drawn)

  abbrev guest_row : CustomerOrderingSession
  guest_row =
      new_customer_session tenant_id token.table_id
        (current_open_table_session_id tenant_id token.table_id s.db)
        (services.hash_customer_session_token cookie_token) (s.clock s.read) (s.uuids (suc s.drawn))

  load_customer_session_row-started :
      (now : ℕ)
      → load_customer_session_row
          (services.hash_customer_session_token cookie_token)
          now
          (started_db services tenant_id raw_qr_token cookie token table s)
        ≡ (if ltb now (s.clock s.read + customer_session_ttl) then some guest_row else none)
  unfolding load_customer_session_row
  load_customer_session_row-started now = ground (
    arith,
    eq_refl (services.hash_customer_session_token cookie_token),
    find-append
        (λ o.
          str_eq o.cookie_token_hash (services.hash_customer_session_token cookie_token)
          && ltb now o.expires_at)
        s.db.customer_ordering_sessions (guest_row ∷ []),
    find-sharper_none
        (λ o. str_eq o.cookie_token_hash (services.hash_customer_session_token cookie_token))
        (λ o.
          str_eq o.cookie_token_hash (services.hash_customer_session_token cookie_token)
          && ltb now o.expires_at)
        (λ o h. ground arith) s.db.customer_ordering_sessions new_cookie,
  )

  state-started :
      (uuids clock : ℕ → ℕ)
      → is_empty cookie_token ≡ false
      → load_enabled_table tenant_id token.table_id s.db ≡ some table
      → (get_presence_state services
          (some cookie_token)
          (begin (started_db services tenant_id raw_qr_token cookie token table s) uuids clock)).0
        ≡ presence_at token table s (clock 0)
  unfolding get_presence_state load_enabled_table ◌>>=◌
  state-started uuids clock text at_table =
      elim (Bool-cases (ltb (clock 0) (s.clock s.read + customer_session_ttl))) [
        | inl alive ↦ elim (Bool-cases (ltb (clock 0) (s.clock s.read + fresh_presence_ttl))) [
          | inl fresh ↦
              simp (text, at_table, load_customer_session_row-started, alive, fresh, ltb-leb)
          | inr stale ↦
              simp (text, at_table, load_customer_session_row-started, alive, stale, ltb-leb)
        ]
        | inr over ↦
            let early : ltb (clock 0) (s.clock s.read + fresh_presence_ttl) ≡ false =
              ground arith in
            simp (text, load_customer_session_row-started, over, early)
      ]

-- Where a browser without a live session redeems a token at an enabled table, its new session, with
-- a cookie that no earlier session has, is told that it is fresh at every time before the two
-- minutes are over, that fresh presence is required from then on, and that the session is expired
-- once the thirty minutes are over.
pub presence_window :
    (services : PresenceServices) (tenant_id : ℕ) (raw_qr_token : String) (cookie : Option String)
    (token : TableAccessToken) (table : VenueTable) (s : Session)
    → consumable_token tenant_id
        (services.hash_table_access_token raw_qr_token)
        (s.clock s.read)
        s.db
      ≡ some token
    → load_enabled_table tenant_id token.table_id s.db ≡ some table
    → load_customer_session_by services (s.clock s.read) (given cookie) s.db ≡ none
    → find
        (λ o.
          str_eq o.cookie_token_hash
            (services.hash_customer_session_token (services.token_urlsafe (s.uuids s.drawn))))
        s.db.customer_ordering_sessions
      ≡ none
    → is_empty (services.token_urlsafe (s.uuids s.drawn)) ≡ false
    → (uuids clock : ℕ → ℕ)
    → (get_presence_state services
        (some (services.token_urlsafe (s.uuids s.drawn)))
        (begin (redeem_token services tenant_id raw_qr_token cookie s).1.committed uuids clock)).0
      ≡ presence_at token table s (clock 0)
presence_window services tenant_id raw_qr_token cookie token table s at_token at_table no_session
      new_cookie text uuids clock =
    rw
      (redeem_token_starts services tenant_id raw_qr_token cookie token table s at_token at_table
        no_session)
      (state-started services tenant_id raw_qr_token cookie token table s new_cookie uuids clock
        text at_table)
