-- ===== src/Ordering/Presence/Accept.antt =====
-- A token that is accepted: what it leaves committed.
use io_tables.Common.{
  given, ℕ, ◌+◌, suc, ◌≡◌, refl, String, true, false, Option, none, some, List, insert, update,
  ◌==◌,
}
use io_tables.Database.{Db, TableAccessToken, VenueTable, CustomerOrderingSession}
use io_tables.Session.{Session, ok, ◌>>=◌, case_option}
use io_tables.Ordering.Submit.Rows.{load_customer_session_row}
use io_tables.Ordering.Presence.Queries.{
  PresenceServices, PresenceRedeemResult, load_enabled_table, fresh_presence_ttl,
  customer_session_ttl, current_open_table_session_id, load_customer_session_by, is_consumable,
  consumed, consumable_token, generate_token, new_customer_session, renewed,
}
use io_tables.Ordering.Presence.Redeem.{
  is_elsewhere, text_of, consume_token, renew_session, refuse_elsewhere, start_session,
  redeem_token,
}

-- The query for the session reads one table.
pub load_customer_session-same :
    (services : PresenceServices) (now : ℕ) (token : Option String) (db db' : Db)
    → db.customer_ordering_sessions ≡ db'.customer_ordering_sessions
    → load_customer_session_by services now token db
      ≡ load_customer_session_by services now token db'
unfolding load_customer_session_row
load_customer_session-same services now none db db' same = refl
load_customer_session-same services now (some token) db db' same = rw same refl

-- It does not read the tokens.
load_customer_session-tokens :
    (services : PresenceServices) (now : ℕ) (token : Option String) (tokens : List TableAccessToken)
    (db : Db)
    → load_customer_session_by services now token (record db { table_access_tokens = tokens })
      ≡ load_customer_session_by services now token db
unfolding load_customer_session_row
load_customer_session-tokens services now none tokens db = refl
load_customer_session-tokens services now (some token) tokens db = refl

module _ (services : PresenceServices) (tenant_id : ℕ) (raw_qr_token : String)
    (existing_customer_session_token : Option String) (token : TableAccessToken)
    (table : VenueTable) (s : Session) where
  abbrev pub read_now : ℕ
  read_now = s.clock s.read

  abbrev pub consumed_tokens_db : Db
  consumed_tokens_db = record s.db {
    table_access_tokens =
        update (is_consumable tenant_id (services.hash_table_access_token raw_qr_token) read_now)
          (consumed read_now) s.db.table_access_tokens;
  }

  -- A new customer session, with the random value and the id that the request draws.
  abbrev pub started_db : Db
  started_db = record consumed_tokens_db {
    customer_ordering_sessions =
        insert
          (new_customer_session tenant_id token.table_id
            (current_open_table_session_id tenant_id token.table_id s.db)
            (services.hash_customer_session_token (services.token_urlsafe (s.uuids s.drawn)))
            read_now (s.uuids (suc s.drawn)))
          s.db.customer_ordering_sessions;
  }

  abbrev pub started_answer : PresenceRedeemResult
  started_answer = record {
    customer_ordering_session_id = s.uuids (suc s.drawn);
    table_id = token.table_id;
    hall_id = table.hall_id;
    fresh_until = read_now + fresh_presence_ttl;
    session_expires_at = read_now + customer_session_ttl;
    customer_session_token = services.token_urlsafe (s.uuids s.drawn);
    cart_preserved = false;
  }

  abbrev pub started_session : Session
  started_session = record s {
    db = started_db;
    committed = started_db;
    drawn = suc (suc s.drawn);
    read = suc s.read;
  }

  pub redeem_token_starts :
      consumable_token tenant_id (services.hash_table_access_token raw_qr_token) read_now s.db
        ≡ some token
      → load_enabled_table tenant_id token.table_id s.db ≡ some table
      → load_customer_session_by services read_now (given existing_customer_session_token) s.db
        ≡ none
      → redeem_token services tenant_id raw_qr_token existing_customer_session_token s
        ≡ (ok started_answer, started_session)
  unfolding redeem_token consume_token start_session refuse_elsewhere generate_token
      load_enabled_table current_open_table_session_id case_option ◌>>=◌
  redeem_token_starts at_token at_table no_session =
      simp (at_token, at_table, no_session, load_customer_session-tokens)

  -- The session of the browser is renewed.
  abbrev pub renewed_db : CustomerOrderingSession → Db
  renewed_db o = record consumed_tokens_db {
    customer_ordering_sessions =
        update (λ x. x.id == o.id)
          (renewed (current_open_table_session_id tenant_id token.table_id s.db) read_now)
          s.db.customer_ordering_sessions;
  }

  abbrev pub renewed_session : CustomerOrderingSession → Session
  renewed_session o = record s { db = renewed_db o; committed = renewed_db o; read = suc s.read }

  abbrev pub renewed_answer : CustomerOrderingSession → PresenceRedeemResult
  renewed_answer o = record {
    customer_ordering_session_id = o.id;
    table_id = token.table_id;
    hall_id = table.hall_id;
    fresh_until = read_now + fresh_presence_ttl;
    session_expires_at = read_now + customer_session_ttl;
    customer_session_token = text_of existing_customer_session_token;
    cart_preserved = true;
  }

  -- A token that may be consumed, at an enabled table, from a browser whose live session is one of
  -- that table, renews this session and no other row: the token is marked as used, the session is
  -- fresh for two minutes and lives for thirty, the cart is kept, and all of it is committed.
  pub redeem_token-renews :
      (o : CustomerOrderingSession)
      → consumable_token tenant_id (services.hash_table_access_token raw_qr_token) read_now s.db
        ≡ some token
      → load_enabled_table tenant_id token.table_id s.db ≡ some table
      → load_customer_session_by services read_now (given existing_customer_session_token) s.db
        ≡ some o
      → is_elsewhere tenant_id token.table_id (some o) ≡ false
      → redeem_token services tenant_id raw_qr_token existing_customer_session_token s
        ≡ (ok (renewed_answer o), renewed_session o)
  unfolding redeem_token consume_token renew_session refuse_elsewhere load_enabled_table
      current_open_table_session_id case_option ◌>>=◌
  redeem_token-renews o at_token at_table at_session here =
      simp (at_token, at_table, at_session, here, load_customer_session-tokens)
