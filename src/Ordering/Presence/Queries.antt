-- ===== src/Ordering/Presence/Queries.antt =====
-- What TablePresenceService calls and answers, its queries and the rows it inserts. Times are
-- counted in microseconds, as by `datetime`.
use io_tables.Common.{
  ℕ, ◌+◌, String, Bool, ◌&&◌, Option, none, some, find, is_none, ltb, str_eq, ◌==◌,
}
use io_tables.Database.{
  Db, CustomerOrderingSession, TableAccessToken, TableDisplayCredential, TableSession, VenueTable,
  is_granted, is_open,
}
use io_tables.Session.{Exec, ◌>>=◌, pure, uuid4}
use io_tables.Ordering.Submit.Rows.{load_customer_session_row}

abbrev pub table_access_token_ttl : ℕ
table_access_token_ttl = 60000000

abbrev pub fresh_presence_ttl : ℕ
fresh_presence_ttl = 120000000

abbrev pub customer_session_ttl : ℕ
customer_session_ttl = 1800000000

-- The SHA-256 hashes, and the text of a random token by the random value that it is drawn as.
pub record PresenceServices : Type 0 where
  pub hash_customer_session_token : String → String
  pub hash_table_access_token : String → String
  pub hash_display_credential : String → String
  pub token_urlsafe : ℕ → String

pub record QrTokenPayload : Type 0 where
  pub qr_token : String
  pub expires_at : ℕ
  pub refresh_after_seconds : ℕ

pub record PresenceRedeemResult : Type 0 where
  pub customer_ordering_session_id : ℕ
  pub table_id : ℕ
  pub hall_id : ℕ
  pub fresh_until : ℕ
  pub session_expires_at : ℕ
  pub customer_session_token : String
  pub cart_preserved : Bool

pub record PresenceState : Type 0 where
  pub customer_ordering_session_id : ℕ
  pub table_id : ℕ
  pub hall_id : ℕ
  pub fresh_until : ℕ
  pub fresh : Bool

-- `_load_active_display_credential`
unfoldable pub load_active_display_credential : String → Db → Option TableDisplayCredential
load_active_display_credential credential_hash db =
    find (λ c. str_eq c.credential_hash credential_hash && is_granted c.status)
      db.table_display_credentials

-- `_load_enabled_table`
unfoldable pub load_enabled_table : ℕ → ℕ → Db → Option VenueTable
load_enabled_table tenant_id table_id db =
    find (λ t. (t.tenant_id == tenant_id) && (t.id == table_id) && t.enabled) db.venue_tables

abbrev pub is_current : ℕ → ℕ → TableSession → Bool
is_current tenant_id table_id t =
    (t.tenant_id == tenant_id) && (t.table_id == table_id) && is_open t.status

-- `_current_open_table_session_id`
unfoldable pub current_open_table_session_id : ℕ → ℕ → Db → Option ℕ
current_open_table_session_id tenant_id table_id db =
    elim (find (is_current tenant_id table_id) db.table_sessions) [
      | none ↦ none
      | some t ↦ some t.id
    ]

-- `_load_customer_session`; the ordering service runs the same statement.
abbrev pub load_customer_session_by :
    PresenceServices → ℕ → Option String → Db → Option CustomerOrderingSession
load_customer_session_by services now none db = none
load_customer_session_by services now (some token) db =
    load_customer_session_row (services.hash_customer_session_token token) now db

-- The tokens that `_consume_token` may update.
abbrev pub is_consumable : ℕ → String → ℕ → TableAccessToken → Bool
is_consumable tenant_id token_hash now t =
    (t.tenant_id == tenant_id)
    && str_eq t.token_hash token_hash
    && is_none t.consumed_at
    && ltb now t.expires_at

abbrev pub consumed : ℕ → TableAccessToken → TableAccessToken
consumed now t = record t { consumed_at = some now }

unfoldable pub consumable_token : ℕ → String → ℕ → Db → Option TableAccessToken
consumable_token tenant_id token_hash now db =
    find (is_consumable tenant_id token_hash now) db.table_access_tokens

unfoldable pub token_by_hash : String → Db → Option TableAccessToken
token_by_hash token_hash db = find (λ t. str_eq t.token_hash token_hash) db.table_access_tokens

-- `generate_table_access_token` and `generate_customer_session_token`
unfoldable pub generate_token : PresenceServices → Exec String
generate_token services = uuid4 >>= λ random. pure (services.token_urlsafe random)

abbrev pub new_token : ℕ → ℕ → String → ℕ → ℕ → TableAccessToken
new_token tenant_id table_id token_hash now token_id = record {
  id = token_id;
  tenant_id = tenant_id;
  table_id = table_id;
  token_hash = token_hash;
  expires_at = now + table_access_token_ttl;
  consumed_at = none;
  created_at = now;
}

abbrev pub new_customer_session : ℕ → ℕ → Option ℕ → String → ℕ → ℕ → CustomerOrderingSession
new_customer_session tenant_id table_id table_session_id cookie_token_hash now session_id = record {
  id = session_id;
  tenant_id = tenant_id;
  table_id = table_id;
  table_session_id = table_session_id;
  cookie_token_hash = cookie_token_hash;
  presence_valid_until = now + fresh_presence_ttl;
  expires_at = now + customer_session_ttl;
  last_seen_at = now;
  created_at = now;
  updated_at = now;
}

abbrev pub renewed : Option ℕ → ℕ → CustomerOrderingSession → CustomerOrderingSession
renewed table_session_id now o = record o {
  table_session_id = table_session_id;
  presence_valid_until = now + fresh_presence_ttl;
  expires_at = now + customer_session_ttl;
  last_seen_at = now;
  updated_at = now;
}

abbrev pub seen_at : ℕ → CustomerOrderingSession → CustomerOrderingSession
seen_at now o = record o { last_seen_at = now; updated_at = now }
