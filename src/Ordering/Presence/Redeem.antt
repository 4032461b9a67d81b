-- ===== src/Ordering/Presence/Redeem.antt =====
-- TablePresenceService.redeem_token and get_presence_state.
use io_tables.Common.{
  given, ℕ, ◌+◌, String, Bool, true, false, not, ◌||◌, Option, none, some, insert, update, is_none,
  leb, ◌==◌,
}
use io_tables.Database.{CustomerOrderingSession, TableAccessToken, VenueTable}
use io_tables.Errors.{
  token_expired, token_consumed, wrong_table_or_tenant, wrong_table_or_session, session_expired,
  fresh_presence_required,
}
use io_tables.Session.{
  Exec, ◌>>=◌, ◌>>◌, pure, raise_if, or_raise, query, execute, commit, rollback, uuid4, utc_now,
  case_option,
}
use io_tables.Ordering.Presence.Queries.{
  PresenceServices, PresenceRedeemResult, PresenceState, load_enabled_table,
  current_open_table_session_id, load_customer_session_by, is_consumable, consumed,
  consumable_token, token_by_hash, generate_token, new_customer_session, renewed, seen_at,
  fresh_presence_ttl, customer_session_ttl,
}

-- `existing is None or existing["expires_at"] <= now`
abbrev pub is_out : ℕ → Option TableAccessToken → Bool
is_out now none = true
is_out now (some t) = leb t.expires_at now

abbrev pub is_used : Option TableAccessToken → Bool
is_used none = false
is_used (some t) = not (is_none t.consumed_at)

abbrev pub is_elsewhere : ℕ → ℕ → Option CustomerOrderingSession → Bool
is_elsewhere tenant_id table_id none = false
is_elsewhere tenant_id table_id (some o) =
    not (o.tenant_id == tenant_id) || not (o.table_id == table_id)

-- The cookie's text; a session was found by it where this is used.
abbrev pub text_of : Option String → String
text_of none = ""
text_of (some text) = text

unfoldable pub refuse_elsewhere : Bool → Exec (Unit {0})
refuse_elsewhere false = pure tt
refuse_elsewhere true = rollback >> raise_if true wrong_table_or_session

-- `_consume_token`, where its update finds no row.
unfoldable pub refuse_token : String → ℕ → Exec TableAccessToken
refuse_token token_hash now = do
  existing ← query (token_by_hash token_hash)
  rollback
  raise_if (is_out now existing) token_expired
  raise_if (is_used existing) token_consumed
  or_raise none wrong_table_or_tenant

-- `_consume_token`
unfoldable pub consume_token : String → ℕ → ℕ → Exec TableAccessToken
consume_token token_hash tenant_id now = do
  row ← query (consumable_token tenant_id token_hash now)
  execute (λ db. record db {
    table_access_tokens =
        update (is_consumable tenant_id token_hash now) (consumed now) db.table_access_tokens;
  })
  case_option row (refuse_token token_hash now) (λ t. pure (consumed now t))

-- `redeem_token` where the browser comes with a session.
unfoldable pub renew_session :
    String
    → TableAccessToken
    → VenueTable
    → Option ℕ
    → ℕ
    → CustomerOrderingSession
    → Exec PresenceRedeemResult
renew_session customer_session_token token_row table_row table_session_id now existing_session = do
  execute (λ db. record db {
    customer_ordering_sessions =
        update (λ o. o.id == existing_session.id) (renewed table_session_id now)
          db.customer_ordering_sessions;
  })
  commit
  pure (record {
    customer_ordering_session_id = existing_session.id;
    table_id = token_row.table_id;
    hall_id = table_row.hall_id;
    fresh_until = now + fresh_presence_ttl;
    session_expires_at = now + customer_session_ttl;
    customer_session_token = customer_session_token;
    cart_preserved = true;
  })

module _ (services : PresenceServices) where
  -- `redeem_token` where the browser comes with no session.
  unfoldable pub start_session :
      ℕ → TableAccessToken → VenueTable → Option ℕ → ℕ → Exec PresenceRedeemResult
  start_session tenant_id token_row table_row table_session_id now = do
    customer_session_token ← generate_token services
    session_id ← uuid4
    execute (λ db. record db {
      customer_ordering_sessions =
          insert
            (new_customer_session tenant_id token_row.table_id table_session_id
              (services.hash_customer_session_token customer_session_token) now session_id)
            db.customer_ordering_sessions;
    })
    commit
    pure (record {
      customer_ordering_session_id = session_id;
      table_id = token_row.table_id;
      hall_id = table_row.hall_id;
      fresh_until = now + fresh_presence_ttl;
      session_expires_at = now + customer_session_ttl;
      customer_session_token = customer_session_token;
      cart_preserved = false;
    })

  unfoldable pub redeem_token : ℕ → String → Option String → Exec PresenceRedeemResult
  redeem_token tenant_id raw_qr_token existing_customer_session_token = do
    now ← utc_now
    token_row ← consume_token (services.hash_table_access_token raw_qr_token) tenant_id now
    found_table ← query (load_enabled_table tenant_id token_row.table_id)
    table_row ← or_raise found_table wrong_table_or_tenant
    existing_session ←
        query (load_customer_session_by services now (given existing_customer_session_token))
    refuse_elsewhere (is_elsewhere tenant_id token_row.table_id existing_session)
    table_session_id ← query (current_open_table_session_id tenant_id token_row.table_id)
    case_option existing_session (start_session tenant_id token_row table_row table_session_id now)
        (renew_session (text_of existing_customer_session_token) token_row table_row
          table_session_id now)

  unfoldable pub get_presence_state : Option String → Exec PresenceState
  get_presence_state customer_session_token = do
    token ← or_raise (given customer_session_token) session_expired
    now ← utc_now
    found_session ← query (load_customer_session_by services now (some token))
    session_row ← or_raise found_session session_expired
    found_table ← query (load_enabled_table session_row.tenant_id session_row.table_id)
    table_row ← or_raise found_table fresh_presence_required
    execute (λ db. record db {
      customer_ordering_sessions =
          update (λ o. o.id == session_row.id) (seen_at now) db.customer_ordering_sessions;
    })
    commit
    raise_if (leb session_row.presence_valid_until now) fresh_presence_required
    pure (record {
      customer_ordering_session_id = session_row.id;
      table_id = session_row.table_id;
      hall_id = table_row.hall_id;
      fresh_until = session_row.presence_valid_until;
      fresh = true;
    })
