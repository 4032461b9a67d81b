-- ===== src/Settlement/Billing/Queries.antt =====
-- The queries of TableSessionBillingService in modules/settlement/table_session_billing.py, and the
-- two methods that only read.
use io_tables.Common.{ℕ, not, ◌&&◌, Option, List, find, join, ◌==◌}
use io_tables.Actor.{ActorContext, has_role, cashier}
use io_tables.Errors.{not_authorized, not_found_or_hidden}
use io_tables.Database.{Db, Hall, VenueTable, TableSession, Check, is_open, SessionClosure}
use io_tables.Session.{Exec, ◌>>=◌, ◌>>◌, pure, raise_if, or_raise, query}
use io_tables.Settlement.Billing.Totals.{ActiveTableSession, BillSummary, bill_summary_for_check}

unfoldable pub require_cashier : ActorContext → Exec (Unit {0})
require_cashier actor = raise_if (not (has_role cashier actor)) not_authorized

-- The rows of `_active_session_row`'s join: session, check, table and hall.
abbrev pub SessionRow : Type 0
SessionRow = ((TableSession × Check) × VenueTable) × Hall

abbrev pub session_rows : Db → List SessionRow
session_rows db =
    join (λ r h. (h.tenant_id == r.1.tenant_id) && (h.id == r.1.hall_id))
      (join (λ r t. (t.tenant_id == r.0.tenant_id) && (t.id == r.0.table_id))
        (join (λ s c. (c.tenant_id == s.tenant_id) && (c.table_session_id == s.id))
          db.table_sessions db.checks)
        db.venue_tables)
      db.halls

-- `_active_session_row`
unfoldable pub active_session_row : ℕ → ℕ → Db → Option SessionRow
active_session_row tenant_id table_id db =
    find
      (λ r.
        (r.0.0.0.tenant_id == tenant_id)
        && (r.0.0.0.table_id == table_id)
        && is_open r.0.0.0.status)
      (session_rows db)

-- `_check_for_session`
unfoldable pub check_for_session : ℕ → ℕ → Db → Option (Check × TableSession)
check_for_session tenant_id table_session_id db =
    find (λ r. (r.0.tenant_id == tenant_id) && (r.0.table_session_id == table_session_id))
      (join (λ c s. (s.tenant_id == c.tenant_id) && (s.id == c.table_session_id)) db.checks
        db.table_sessions)

-- `_closure_row`
unfoldable pub closure_row : ℕ → ℕ → Db → Option SessionClosure
closure_row tenant_id table_session_id db =
    find (λ c. (c.tenant_id == tenant_id) && (c.table_session_id == table_session_id))
      db.session_closures

unfoldable pub get_bill_summary : ActorContext → ℕ → Exec BillSummary
unfolding require_cashier
get_bill_summary actor table_session_id = do
  require_cashier actor
  tenant_id ← or_raise actor.tenant_id not_authorized
  row ← query (check_for_session tenant_id table_session_id)
  check ← or_raise row not_found_or_hidden
  query (bill_summary_for_check tenant_id check.0.id table_session_id)

unfoldable pub get_active_table_session : ActorContext → ℕ → Exec ActiveTableSession
unfolding require_cashier
get_active_table_session actor table_id = do
  require_cashier actor
  tenant_id ← or_raise actor.tenant_id not_authorized
  found ← query (active_session_row tenant_id table_id)
  row ← or_raise found not_found_or_hidden
  pure (record {
    table_session_id = row.0.0.0.id;
    table_id = row.0.0.0.table_id;
    hall_id = row.0.1.hall_id;
    check_id = row.0.0.1.id;
    status = row.0.0.0.status;
    opened_at = row.0.0.0.opened_at;
    table_label = row.0.1.name;
    hall_label = row.1.name;
  })
