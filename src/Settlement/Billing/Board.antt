-- ===== src/Settlement/Billing/Board.antt =====
-- `venue_board` of modules/settlement/table_session_billing.py.
use io_tables.Common.{ℕ, Bool, ◌&&◌, ◌||◌, none, some, List, [], ◌∷◌, select, join, order_by, ◌==◌}
use io_tables.Actor.{ActorContext}
use io_tables.Errors.{not_authorized}
use io_tables.Database.{Db, Hall, VenueTable, is_physical}
use io_tables.Session.{Exec, ◌>>=◌, ◌>>◌, pure, or_raise, query, utc_now}
use io_tables.Settlement.Billing.Totals.{CashierTableState, CashierVenueBoard}
use io_tables.Settlement.Billing.Queries.{require_cashier, active_session_row, get_bill_summary}

-- The rows that `venue_board` shows, in the order of halls and then of tables.
unfoldable pub board_rows : ℕ → Bool → Db → List (VenueTable × Hall)
board_rows tenant_id include_virtual_test_tables db =
    order_by (λ r. r.1.display_order)
      (order_by (λ r. r.0.display_order)
        (select
          (λ r.
            (r.0.tenant_id == tenant_id)
            && r.0.enabled
            && r.1.enabled
            && (include_virtual_test_tables || is_physical r.0.mode))
          (join (λ t h. (h.tenant_id == t.tenant_id) && (h.id == t.hall_id)) db.venue_tables
            db.halls)))

-- The body of the loop of `venue_board`.
table_state : ActorContext → ℕ → VenueTable × Hall → Exec CashierTableState
table_state actor tenant_id (t, h) = do
  active ← query (active_session_row tenant_id t.id)
  elim active [
    | none ↦ pure (record {
      table_id = t.id;
      hall_id = h.id;
      table_label = t.name;
      hall_label = h.name;
      mode = t.mode;
      table_session_id = none;
      check_id = none;
      status = "empty";
      opened_at = none;
      total_minor = 0;
      paid_minor = 0;
      remaining_minor = 0;
    })
    | some row ↦ do
      summary ← get_bill_summary actor row.0.0.0.id
      pure (record {
        table_id = t.id;
        hall_id = h.id;
        table_label = t.name;
        hall_label = h.name;
        mode = t.mode;
        table_session_id = some row.0.0.0.id;
        check_id = some row.0.0.1.id;
        status = "occupied";
        opened_at = some row.0.0.0.opened_at;
        total_minor = summary.total_minor;
        paid_minor = summary.paid_minor;
        remaining_minor = summary.remaining_minor;
      })
  ]

table_states : ActorContext → ℕ → List (VenueTable × Hall) → Exec (List CashierTableState)
table_states actor tenant_id [] = pure []
table_states actor tenant_id (row ∷ rows) = do
  state ← table_state actor tenant_id row
  states ← table_states actor tenant_id rows
  pure (state ∷ states)

unfoldable pub venue_board : ActorContext → Bool → Exec CashierVenueBoard
unfolding require_cashier table_states table_state get_bill_summary
venue_board actor include_virtual_test_tables = do
  require_cashier actor
  tenant_id ← or_raise actor.tenant_id not_authorized
  rows ← query (board_rows tenant_id include_virtual_test_tables)
  states ← table_states actor tenant_id rows
  now ← utc_now
  pure (record { tables = states; derived_at = now })
