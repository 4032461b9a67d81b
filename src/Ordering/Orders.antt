-- ===== src/Ordering/Orders.antt =====
-- CustomerOrderingService.list_table_orders of modules/ordering/customer_ordering.py.
use io_tables.Common.{
  ℕ, String, Bool, not, ◌&&◌, Option, List, find, select, order_by, map, is_none, ◌==◌,
}
use io_tables.Actor.{ActorContext, cashier, has_role}
use io_tables.Database.{Db, TableSession, Order, OrderItem}
use io_tables.Errors.{not_authorized, not_found_or_hidden}
use io_tables.Session.{Exec, ◌>>=◌, ◌>>◌, raise_if, or_raise, query}

pub record CashierOrderItem : Type 0 where
  pub order_item_id : ℕ
  pub name : String
  pub variant_name : String
  pub quantity : ℕ
  pub unit_price_minor : ℕ
  pub currency : String
  pub note : Option String
  pub voided : Bool

pub record CashierOrder : Type 0 where
  pub order_id : ℕ
  pub table_session_id : ℕ
  pub submitted_at : ℕ
  pub items : List CashierOrderItem

abbrev pub cashier_order_item : OrderItem → CashierOrderItem
cashier_order_item row = record {
  order_item_id = row.id;
  name = row.name_snapshot;
  variant_name = row.variant_name_snapshot;
  quantity = row.quantity;
  unit_price_minor = row.unit_price_minor;
  currency = row.currency_code;
  note = row.note;
  voided = not (is_none row.voided_at);
}

-- One turn of the loop over the orders.
unfoldable pub cashier_order : ℕ → Db → Order → CashierOrder
cashier_order tenant_id db o = record {
  order_id = o.id;
  table_session_id = o.table_session_id;
  submitted_at = o.submitted_at;
  items = map cashier_order_item (
      order_by (λ i. i.created_at)
        (select (λ i. (i.tenant_id == tenant_id) && (i.order_id == o.id)) db.order_items));
}

unfoldable pub table_session_row : ℕ → ℕ → Db → Option TableSession
table_session_row tenant_id table_session_id db =
    find (λ t. (t.tenant_id == tenant_id) && (t.id == table_session_id)) db.table_sessions

unfoldable pub table_orders : ℕ → ℕ → Db → List CashierOrder
table_orders tenant_id table_session_id db =
    map (cashier_order tenant_id db) (
      select (λ o. (o.tenant_id == tenant_id) && (o.table_session_id == table_session_id))
        db.orders)

unfoldable pub list_table_orders : ActorContext → ℕ → Exec (List CashierOrder)
list_table_orders actor table_session_id = do
  tenant_id ← or_raise actor.tenant_id not_authorized
  raise_if (not (has_role cashier actor)) not_authorized
  raise_if (is_none actor.user_id) not_authorized
  session_exists ← query (table_session_row tenant_id table_session_id)
  session_row ← or_raise session_exists not_found_or_hidden
  query (table_orders tenant_id table_session_id)
