-- ===== src/Ordering/Presence/Renewal.antt =====
-- How long a token that is redeemed at the same table again lets a guest order.
use io_tables.Common.{
  given, is_empty, Bool-cases, inl, inr, ℕ, ◌+◌, ◌≤◌, ◌≡◌, refl, String, Bool, true, false, ◌&&◌,
  none, some, find, count, update, count-update, find-update, find_sound, find-sharper_unique, ltb,
  str_eq, arith, ◌==◌, ==_refl, if◌then◌else◌,
}
use io_tables.Database.{TableAccessToken, VenueTable, CustomerOrderingSession}
use io_tables.Errors.{fresh_presence_required, session_expired}
use io_tables.Session.{Session, Result, ok, err, ◌>>=◌, begin}
use io_tables.Ordering.Submit.Rows.{load_customer_session_row}
use io_tables.Ordering.Presence.Queries.{
  PresenceServices, PresenceState, load_enabled_table, fresh_presence_ttl, customer_session_ttl,
  load_customer_session_by, consumable_token, current_open_table_session_id, renewed,
}
use io_tables.Ordering.Presence.Redeem.{redeem_token, get_presence_state}
use io_tables.Ordering.Presence.Accept.{renewed_db, redeem_token-renews}
use io_tables.Ordering.Presence.Window.{ltb-leb}

module _ (table : VenueTable) (o : CustomerOrderingSession) (s : Session) where
  abbrev pub renewed_presence : PresenceState
  renewed_presence = record {
    customer_ordering_session_id = o.id;
    table_id = o.table_id;
    hall_id = table.hall_id;
    fresh_until = s.clock s.read + fresh_presence_ttl;
    fresh = true;
  }

  -- What a guest is told at a time after the token was redeemed at another.
  abbrev pub renewed_presence_at : ℕ → Result PresenceState
  renewed_presence_at now =
      if ltb now (s.clock s.read + fresh_presence_ttl)
      then ok renewed_presence
      else (if ltb now (s.clock s.read + customer_session_ttl)
          then err fresh_presence_required
          else err session_expired)

module _ (services : PresenceServices) (tenant_id : ℕ) (raw_qr_token cookie : String)
    (token : TableAccessToken) (table : VenueTable) (o : CustomerOrderingSession) (s : Session)
    (first : find
        (λ x. str_eq x.cookie_token_hash (services.hash_customer_session_token cookie))
        s.db.customer_ordering_sessions
      ≡ some o)
    (one : count
        (λ x. str_eq x.cookie_token_hash (services.hash_customer_session_token cookie))
        s.db.customer_ordering_sessions
      ≤ 1) where
  abbrev has_cookie : CustomerOrderingSession → Bool
  has_cookie x = str_eq x.cookie_token_hash (services.hash_customer_session_token cookie)

  abbrev renewed_row : CustomerOrderingSession
  renewed_row =
      renewed (current_open_table_session_id tenant_id token.table_id s.db) (s.clock s.read) o

  -- The session is found as long as it is live, before the renewal and behind it.
  load_customer_session_row-live :
      (now : ℕ)
      → load_customer_session_row (services.hash_customer_session_token cookie) now s.db
        ≡ (if has_cookie o && ltb now o.expires_at then some o else none)
  unfolding load_customer_session_row
  load_customer_session_row-live now =
      find-sharper_unique has_cookie (λ x. has_cookie x && ltb now x.expires_at)
        (λ x h. ground (arith, h)) s.db.customer_ordering_sessions o one first

  load_customer_session_row-renewed :
      (now : ℕ)
      → load_customer_session_row
          (services.hash_customer_session_token cookie)
          now
          (renewed_db services tenant_id raw_qr_token (some cookie) token table s o)
        ≡ (if has_cookie o && ltb now (s.clock s.read + customer_session_ttl)
            then some renewed_row
            else none)
  unfolding load_customer_session_row
  load_customer_session_row-renewed now =
      let f : CustomerOrderingSession → CustomerOrderingSession =
        renewed (current_open_table_session_id tenant_id token.table_id s.db) (s.clock s.read) in
      find-sharper_unique has_cookie (λ x. has_cookie x && ltb now x.expires_at)
        (λ x h. ground (arith, h)) (update (λ x. x.id == o.id) f s.db.customer_ordering_sessions)
        renewed_row
        (rw
          (count-update has_cookie (λ x. x.id == o.id) f (λ x. refl)
            s.db.customer_ordering_sessions)
          one)
        (ground (
          arith,
          first,
          ==_refl o.id,
          find-update has_cookie (λ x. x.id == o.id) f (λ x. refl) s.db.customer_ordering_sessions,
        ))

  state-renewed :
      (uuids clock : ℕ → ℕ)
      → is_empty cookie ≡ false
      → load_enabled_table o.tenant_id o.table_id s.db ≡ some table
      → (get_presence_state services (some cookie) (
          begin
            (renewed_db services tenant_id raw_qr_token (some cookie) token table s o)
            uuids
            clock)).0
        ≡ renewed_presence_at table o s (clock 0)
  unfolding get_presence_state load_enabled_table ◌>>=◌
  state-renewed uuids clock text at_table =
      let here : has_cookie o ≡ true =
        find_sound has_cookie s.db.customer_ordering_sessions o first in
      elim (Bool-cases (ltb (clock 0) (s.clock s.read + customer_session_ttl))) [
        | inl alive ↦ elim (Bool-cases (ltb (clock 0) (s.clock s.read + fresh_presence_ttl))) [
          | inl fresh ↦
              simp (text, at_table, load_customer_session_row-renewed, here, alive, fresh, ltb-leb)
          | inr stale ↦
              simp (text, at_table, load_customer_session_row-renewed, here, alive, stale, ltb-leb)
        ]
        | inr over ↦
            let early : ltb (clock 0) (s.clock s.read + fresh_presence_ttl) ≡ false =
              ground arith in
            simp (text, load_customer_session_row-renewed, here, over, early)
      ]

-- Where a browser whose cookie is that of one session, live and of the token's tenant and table,
-- redeems a token that may be consumed at this enabled table, the answer is this session, with the
-- cart kept; and the session is told that it is fresh at every time before two minutes from then are
-- over, that fresh presence is required from then on, and that it is expired once thirty minutes
-- from the redemption are over, whatever its deadlines were before.
pub renewed_presence_window :
    (services : PresenceServices) (tenant_id : ℕ) (raw_qr_token cookie : String)
    (token : TableAccessToken) (table : VenueTable) (o : CustomerOrderingSession) (s : Session)
    → consumable_token tenant_id
        (services.hash_table_access_token raw_qr_token)
        (s.clock s.read)
        s.db
      ≡ some token
    → load_enabled_table tenant_id token.table_id s.db ≡ some table
    → is_empty cookie ≡ false
    → find
        (λ x. str_eq x.cookie_token_hash (services.hash_customer_session_token cookie))
        s.db.customer_ordering_sessions
      ≡ some o
    → count
        (λ x. str_eq x.cookie_token_hash (services.hash_customer_session_token cookie))
        s.db.customer_ordering_sessions
      ≤ 1
    → ltb (s.clock s.read) o.expires_at ≡ true
    → o.tenant_id ≡ tenant_id
    → o.table_id ≡ token.table_id
    → (uuids clock : ℕ → ℕ)
    → ((redeem_token services tenant_id raw_qr_token (some cookie) s).0
        ≡ ok (record {
          customer_ordering_session_id = o.id;
          table_id = token.table_id;
          hall_id = table.hall_id;
          fresh_until = s.clock s.read + fresh_presence_ttl;
          session_expires_at = s.clock s.read + customer_session_ttl;
          customer_session_token = cookie;
          cart_preserved = true;
        }))
      × ((get_presence_state services (some cookie) (
            begin
              (redeem_token services tenant_id raw_qr_token (some cookie) s).1.committed
              uuids
              clock)).0
          ≡ renewed_presence_at table o s (clock 0))
renewed_presence_window services tenant_id raw_qr_token cookie token table o s at_token at_table
      text first one live same_tenant same_table uuids clock =
    let has_cookie : CustomerOrderingSession → Bool =
      λ x. str_eq x.cookie_token_hash (services.hash_customer_session_token cookie) in
    let here : has_cookie o ≡ true =
      find_sound has_cookie s.db.customer_ordering_sessions o first in
    let at_session : load_customer_session_by services (s.clock s.read) (given (some cookie)) s.db
        ≡ some o =
      simp (
        text,
        load_customer_session_row-live services tenant_id raw_qr_token cookie token table o s first
            one,
        here,
        live,
      ) in
    let at_its_table : load_enabled_table o.tenant_id o.table_id s.db ≡ some table =
      rw (same_tenant, same_table) at_table in
    rw
      (redeem_token-renews services tenant_id raw_qr_token (some cookie) token table s o at_token
        at_table at_session
        (ground (arith, ==_refl tenant_id, ==_refl token.table_id, same_tenant, same_table)))
      (
        refl,
        state-renewed services tenant_id raw_qr_token cookie token table o s first one uuids clock
            text at_its_table,
      )
