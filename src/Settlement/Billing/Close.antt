-- ===== src/Settlement/Billing/Close.antt =====
-- `close_session` of modules/settlement/table_session_billing.py.
use io_tables.Common.{
  ℕ, String, not, ◌&&◌, ◌||◌, Option, none, some, [], ◌∷◌, update, insert, strip, is_empty, ◌==◌,
  if◌then◌else◌,
}
use io_tables.Actor.{ActorContext}
use io_tables.Errors.{
  not_authorized, not_found_or_hidden, invalid_state, check_closed, remaining_balance_not_zero,
}
use io_tables.Database.{Db, closed, is_open, is_closed, uuid}
use io_tables.Session.{
  Exec, ◌>>=◌, ◌>>◌, pure, raise_if, or_raise, query, execute, commit, uuid4, utc_now,
}
use io_tables.Settlement.Billing.Totals.{ClosedTableSession, bill_summary_for_check}
use io_tables.Settlement.Billing.Queries.{require_cashier, check_for_session, closure_row}

-- `reason.strip() if reason else None`
abbrev pub stripped : Option String → Option String
stripped none = none
stripped (some r) = if is_empty r then none else some (strip r)

-- The writes of `close_session`.
abbrev pub close_writes : ℕ → ℕ → ℕ → ℕ → Option String → ℕ → ℕ → ℕ → Db → Db
close_writes tenant_id user_id check_id table_session_id reason now closure_id event_id db =
    record db {
      checks =
          update (λ c. (c.tenant_id == tenant_id) && (c.id == check_id))
            (λ c. record c { status = closed; closed_at = some now }) db.checks;
      table_sessions =
          update (λ t. (t.tenant_id == tenant_id) && (t.id == table_session_id))
            (λ t. record t { status = closed; closed_at = some now; updated_at = now })
            db.table_sessions;
      session_closures =
          insert
            (record {
              id = closure_id;
              tenant_id = tenant_id;
              table_session_id = table_session_id;
              check_id = check_id;
              cashier_user_id = user_id;
              reason = stripped reason;
              closed_at = now;
            })
            db.session_closures;
      audit_events =
          insert
            (record {
              id = event_id;
              tenant_id = some tenant_id;
              actor_user_id = some user_id;
              action = "session.closed";
              target_type = "table_session";
              target_id = table_session_id;
              reason = stripped reason;
              metadata = ("checkId", uuid check_id) ∷ [];
              created_at = now;
            })
            db.audit_events;
    }

-- The part of `close_session` behind its guards.
unfoldable pub close_open_session : ℕ → ℕ → ℕ → ℕ → Option String → Exec ClosedTableSession
close_open_session tenant_id user_id check_id table_session_id reason = do
  now ← utc_now
  closure_id ← uuid4
  event_id ← uuid4
  execute (close_writes tenant_id user_id check_id table_session_id reason now closure_id event_id)
  commit
  pure (record {
    table_session_id = table_session_id;
    check_id = check_id;
    closed_at = now;
    status = closed;
  })

unfoldable pub close_session : ActorContext → ℕ → Option String → Exec ClosedTableSession
unfolding require_cashier close_open_session
close_session actor table_session_id reason = do
  require_cashier actor
  tenant_id ← or_raise actor.tenant_id not_authorized
  user_id ← or_raise actor.user_id not_authorized
  found ← query (check_for_session tenant_id table_session_id)
  row ← or_raise found not_found_or_hidden
  if is_closed row.0.status && is_closed row.1.status
      then (do
        closed_before ← query (closure_row tenant_id table_session_id)
        closure ← or_raise closed_before invalid_state
        pure (record {
          table_session_id = table_session_id;
          check_id = row.0.id;
          closed_at = closure.closed_at;
          status = closed;
        }))
      else (do
        raise_if (not (is_open row.0.status) || not (is_open row.1.status)) check_closed
        summary ← query (bill_summary_for_check tenant_id row.0.id table_session_id)
        raise_if (not (summary.remaining_minor == 0)) remaining_balance_not_zero
        close_open_session tenant_id user_id row.0.id table_session_id reason)
