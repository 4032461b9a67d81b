-- ===== src/Ordering/Presence/Spent.antt =====
-- A token that was used stays used.
use io_tables.Common.{
  ℕ, suc, ◌≤◌, ◌≡◌, refl, String, Bool, false, ◌&&◌, Option, List, count, insert, update, is_none,
  str_eq, arith, count-insert, count-update, count-update_le,
}
use io_tables.Actor.{ActorContext}
use io_tables.Database.{Db, TableAccessToken}
use io_tables.Session.{Session, Exec, ◌>>=◌}
use io_tables.Session.Ends.{
  Ends, Always, Ends-pure, Ends-utc_now, Ends-query, Ends-or_raise, Ends-raise_if, Ends-execute,
  Ends-commit, ends_rules,
}
use io_tables.Ordering.Presence.Queries.{
  PresenceServices, QrTokenPayload, is_consumable, consumed, generate_token, new_token,
}
use io_tables.Ordering.Presence.Issue.{
  issue_token_for_table, issue_current_qr_token, issue_virtual_table_qr_preview,
}
use io_tables.Ordering.Presence.Redeem.{get_presence_state}

abbrev pub has_hash : String → TableAccessToken → Bool
has_hash token_hash t = str_eq t.token_hash token_hash

-- At most one token has the hash, and it was used.
pub record IsSpent (token_hash : String) (tokens : List TableAccessToken) : Type 0 where
  pub one : count (has_hash token_hash) tokens ≤ 1
  pub used : count (λ t. has_hash token_hash t && is_none t.consumed_at) tokens ≡ 0

-- In a database.
abbrev pub Spent : String → Db → Type 0
Spent token_hash db = IsSpent token_hash db.table_access_tokens

-- The random values that a request draws have other hashes.
abbrev pub Spares : PresenceServices → String → (ℕ → ℕ) → Type 0
Spares services token_hash uuids =
    (n : ℕ)
    → str_eq (services.hash_table_access_token (services.token_urlsafe (uuids n))) token_hash
      ≡ false

module _ (token_hash : String) where
  pub IsSpent-consumed :
      (tenant_id now : ℕ) (other : String) (tokens : List TableAccessToken)
      → IsSpent token_hash tokens
      → IsSpent token_hash (update (is_consumable tenant_id other now) (consumed now) tokens)
  IsSpent-consumed tenant_id now other tokens inv = record {
    one = omega (
      arith,
      inv.one,
      count-update (has_hash token_hash) (is_consumable tenant_id other now) (consumed now)
          (λ t. refl) tokens,
    );
    used = omega (
      arith,
      inv.used,
      count-update_le (λ t. has_hash token_hash t && is_none t.consumed_at)
          (is_consumable tenant_id other now) (consumed now) (λ t. ground arith) tokens,
    );
  }

  IsSpent-issued :
      (services : PresenceServices) (uuids : ℕ → ℕ)
      → Spares services token_hash uuids
      → (tenant_id table_id now n id : ℕ) (tokens : List TableAccessToken)
      → IsSpent token_hash tokens
      → IsSpent token_hash (
          insert
            (new_token tenant_id table_id
              (services.hash_table_access_token (services.token_urlsafe (uuids n)))
              now
              id)
            tokens)
  IsSpent-issued services uuids spares tenant_id table_id now n id tokens inv =
      let t : TableAccessToken =
        new_token tenant_id table_id
          (services.hash_table_access_token (services.token_urlsafe (uuids n))) now id in
      record {
        one = grind (arith, inv.one, spares n, count-insert (has_hash token_hash) t tokens);
        used = grind (
          arith,
          inv.used,
          spares n,
          count-insert (λ t. has_hash token_hash t && is_none t.consumed_at) t tokens,
        );
      }

-- What follows the token that is issued to a table.
Ends-issue_token_for_table {ℓ} :
    {B : Type ℓ} {P : Bool → Session → Type 0} (services : PresenceServices)
    (tenant_id table_id now : ℕ) (s : Session) (f : QrTokenPayload → Exec B)
    → ((payload : QrTokenPayload)
        → Ends P (
            f payload (record s {
              db = record s.db {
                table_access_tokens =
                    insert
                      (new_token tenant_id table_id
                        (services.hash_table_access_token
                          (services.token_urlsafe (s.uuids s.drawn)))
                        now
                        (s.uuids (suc s.drawn)))
                      s.db.table_access_tokens;
              };
              drawn = suc (suc s.drawn);
            })))
    → Ends P ((issue_token_for_table services tenant_id table_id now >>= f) s)
unfolding issue_token_for_table generate_token ◌>>=◌
Ends-issue_token_for_table services tenant_id table_id now s f rest = rest _

module _ (token_hash : String) (services : PresenceServices) where
  pub issue_current_qr_token-Spent :
      (display_credential : String) (s : Session)
      → Spares services token_hash s.uuids
      → Spent token_hash s.db
      → Spent token_hash s.committed
      → Ends (Always (Spent token_hash)) (issue_current_qr_token services display_credential s)
  unfolding issue_current_qr_token
  issue_current_qr_token-Spent display_credential s spares inv before = Ends-utc_now _ _ (
      Ends-query _ _ _ (
        Ends-or_raise _ _ _ _ before (λ credential at_credential. Ends-query _ _ _ (
          Ends-or_raise _ _ _ _ before (λ table at_table. Ends-raise_if _ _ _ _ before (λ physical.
            Ends-issue_token_for_table services _ _ _ _ _ (λ payload. Ends-execute _ _ _ (
              Ends-commit _ _ (
                Ends-pure _ _
                  (IsSpent-issued token_hash services s.uuids spares _ _ _ s.drawn _ _ inv))))))))))

  pub issue_virtual_table_qr_preview-Spent :
      (actor : ActorContext) (table_id : ℕ) (s : Session)
      → Spares services token_hash s.uuids
      → Spent token_hash s.db
      → Spent token_hash s.committed
      → Ends (Always (Spent token_hash)) (issue_virtual_table_qr_preview services actor table_id s)
  unfolding issue_virtual_table_qr_preview
  issue_virtual_table_qr_preview-Spent actor table_id s spares inv before =
      Ends-raise_if _ _ _ _ before (λ role. Ends-or_raise _ _ _ _ before (λ tenant_id at_tenant.
        Ends-utc_now _ _ (
          Ends-query _ _ _ (
            Ends-or_raise _ _ _ _ before (λ table at_table. Ends-raise_if _ _ _ _ before (λ virtual.
              Ends-issue_token_for_table services _ _ _ _ _ (λ payload. Ends-commit _ _ (
                Ends-pure _ _
                  (IsSpent-issued token_hash services s.uuids spares _ _ _ s.drawn _ _ inv)))))))))

  pub get_presence_state-Spent :
      (cookie : Option String) (s : Session)
      → Spent token_hash s.db
      → Spent token_hash s.committed
      → Ends (Always (Spent token_hash)) (get_presence_state services cookie s)
  unfolding get_presence_state
  get_presence_state-Spent cookie s inv before = search ends_rules depth 40
