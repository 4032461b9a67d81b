-- ===== src/Ordering/Submit/Inserts.antt =====
-- The rows that `submit_order` inserts.
use io_tables.Common.{ℕ, String, none}
use io_tables.Database.{
  CustomerOrderingSession, CustomerCartItemRow, Order, OrderItem, OrderSubmitIdempotency,
  PreparationItem, PreparationTransition, TableSession, Check, pending, opened, processing,
}
use io_tables.Ordering.Menu.{ProductService, ProductVariant}

-- The row that is inserted into `order_submit_idempotency`.
abbrev pub new_submit_key :
    CustomerOrderingSession → String → String → ℕ → ℕ → OrderSubmitIdempotency
new_submit_key session_row idempotency_key request_hash now key_id = record {
  id = key_id;
  tenant_id = session_row.tenant_id;
  customer_ordering_session_id = session_row.id;
  idempotency_key = idempotency_key;
  request_hash = request_hash;
  order_id = none;
  status = processing;
  created_at = now;
  completed_at = none;
}

-- The row that is inserted into `orders`.
abbrev pub new_order : CustomerOrderingSession → ℕ → ℕ → ℕ → Order
new_order session_row table_session_id now order_id = record {
  id = order_id;
  tenant_id = session_row.tenant_id;
  customer_ordering_session_id = session_row.id;
  table_session_id = table_session_id;
  submitted_at = now;
  created_at = now;
}

-- The row that is inserted into `order_items`.
abbrev pub new_order_item :
    CustomerOrderingSession
    → ℕ
    → ProductService
    → ProductVariant
    → ℕ
    → CustomerCartItemRow
    → ℕ
    → ℕ
    → OrderItem
new_order_item session_row order_id product variant unit_price row now order_item_id = record {
  id = order_item_id;
  tenant_id = session_row.tenant_id;
  order_id = order_id;
  product_service_id = product.product_id;
  product_variant_id = variant.variant_id;
  station_id = product.station_id;
  name_snapshot = product.name;
  variant_name_snapshot = variant.name;
  unit_price_minor = unit_price;
  currency_code = variant.currency_code;
  modifier_snapshot = row.selected_modifiers;
  quantity = row.quantity;
  note = row.note;
  voided_at = none;
  voided_by_user_id = none;
  void_reason = none;
  created_at = now;
}

-- The row that is inserted into `preparation_items`.
abbrev pub new_preparation_item :
    CustomerOrderingSession → ℕ → ProductService → ℕ → ℕ → PreparationItem
new_preparation_item session_row order_item_id product now preparation_item_id = record {
  id = preparation_item_id;
  tenant_id = session_row.tenant_id;
  order_item_id = order_item_id;
  station_id = product.station_id;
  status = pending;
  cannot_prepare_reason = none;
  updated_by_user_id = none;
  updated_at = now;
  created_at = now;
}

-- The row that is inserted into `preparation_transitions`.
abbrev pub first_transition : CustomerOrderingSession → ℕ → ℕ → ℕ → PreparationTransition
first_transition session_row preparation_item_id now transition_id = record {
  id = transition_id;
  tenant_id = session_row.tenant_id;
  preparation_item_id = preparation_item_id;
  actor_user_id = none;
  from_status = none;
  to_status = pending;
  reason = none;
  created_at = now;
}

-- The row that is inserted into `table_sessions`.
abbrev pub new_table_session : CustomerOrderingSession → ℕ → ℕ → TableSession
new_table_session session_row now table_session_id = record {
  id = table_session_id;
  tenant_id = session_row.tenant_id;
  table_id = session_row.table_id;
  status = opened;
  opened_at = now;
  closed_at = none;
  created_at = now;
  updated_at = now;
}

-- The row that is inserted into `checks`.
abbrev pub new_check : CustomerOrderingSession → ℕ → ℕ → ℕ → Check
new_check session_row table_session_id now check_id = record {
  id = check_id;
  tenant_id = session_row.tenant_id;
  table_session_id = table_session_id;
  status = opened;
  opened_at = now;
  closed_at = none;
}
