-- ===== src/Ordering/Presence/Issue.antt =====
-- TablePresenceService.issue_current_qr_token and issue_virtual_table_qr_preview.
use io_tables.Common.{ℕ, ◌+◌, String, not, some, insert, update, ◌==◌}
use io_tables.Actor.{ActorContext, cashier, has_role}
use io_tables.Database.{is_physical, is_virtual_test}
use io_tables.Errors.{
  display_not_authenticated, wrong_table_or_tenant, physical_display_required, not_authorized,
  table_disabled, not_virtual_test_table,
}
use io_tables.Session.{
  Exec, ◌>>=◌, ◌>>◌, pure, raise_if, or_raise, query, execute, commit, uuid4, utc_now,
}
use io_tables.Ordering.Presence.Queries.{
  PresenceServices, QrTokenPayload, load_active_display_credential, load_enabled_table,
  generate_token, new_token, table_access_token_ttl,
}

module _ (services : PresenceServices) where
  -- `_issue_token_for_table`
  unfoldable pub issue_token_for_table : ℕ → ℕ → ℕ → Exec QrTokenPayload
  issue_token_for_table tenant_id table_id now = do
    raw_token ← generate_token services
    token_id ← uuid4
    execute (λ db. record db {
      table_access_tokens =
          insert
            (new_token tenant_id table_id (services.hash_table_access_token raw_token) now token_id)
            db.table_access_tokens;
    })
    pure (record {
      qr_token = raw_token;
      expires_at = now + table_access_token_ttl;
      refresh_after_seconds = 60;
    })

  unfoldable pub issue_current_qr_token : String → Exec QrTokenPayload
  issue_current_qr_token display_credential = do
    now ← utc_now
    found_credential ←
        query (load_active_display_credential (services.hash_display_credential display_credential))
    credential_row ← or_raise found_credential display_not_authenticated
    found_table ← query (load_enabled_table credential_row.tenant_id credential_row.table_id)
    table_row ← or_raise found_table wrong_table_or_tenant
    raise_if (not (is_physical table_row.mode)) physical_display_required
    payload ← issue_token_for_table credential_row.tenant_id credential_row.table_id now
    execute (λ db. record db {
      table_display_credentials =
          update (λ c. c.id == credential_row.id) (λ c. record c { last_seen_at = some now })
            db.table_display_credentials;
    })
    commit
    pure payload

  unfoldable pub issue_virtual_table_qr_preview : ActorContext → ℕ → Exec QrTokenPayload
  issue_virtual_table_qr_preview actor table_id = do
    raise_if (not (has_role cashier actor)) not_authorized
    tenant_id ← or_raise actor.tenant_id not_authorized
    now ← utc_now
    found_table ← query (load_enabled_table tenant_id table_id)
    table_row ← or_raise found_table table_disabled
    raise_if (not (is_virtual_test table_row.mode)) not_virtual_test_table
    payload ← issue_token_for_table tenant_id table_id now
    commit
    pure payload
