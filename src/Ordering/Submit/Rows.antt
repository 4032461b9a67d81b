-- ===== src/Ordering/Submit/Rows.antt =====
-- The arguments, the answer, the queries and the inserted rows of `submit_order`.
use io_tables.Common.{
  ℕ, pos, String, Bool, true, false, ◌&&◌, Option, none, some, List, [], ◌∷◌, find, select,
  order_by, any, map, ltb, str_eq, ◌==◌,
}
use io_tables.Database.{
  Db, CustomerOrderingSession, CustomerCartRow, CustomerCartItemRow, Order, OrderItem,
  OrderSubmitIdempotency, TableSession, Check, is_active, is_open,
}
use io_tables.Ordering.Menu.{ProductService, ProductVariant}
use io_tables.Ordering.Pricing.{CartItemWriteCommand}

pub record SubmitOrderCommand : Type 0 where
  pub cart_version : String
  pub cart_item_ids : List String

pub record SubmittedOrderItem : Type 0 where
  pub order_item_id : ℕ
  pub product_id : ℕ
  pub variant_id : ℕ
  pub station_id : ℕ
  pub name : String
  pub variant_name : String
  pub quantity : ℕ
  pub unit_price_minor : ℕ
  pub note : Option String

pub record SubmittedOrderResult : Type 0 where
  pub order_id : ℕ
  pub table_session_id : ℕ
  pub check_id : ℕ
  pub items : List SubmittedOrderItem
  pub cart_cleared : Bool
  pub duplicate : Bool

-- What the service calls: two SHA-256 hashes, and the menu's get_product_service without disabled
-- products, whose tables are not among those of `Db`.
pub record Services : Type 0 where
  pub hash_customer_session_token : String → String
  pub hash_submit_request : SubmitOrderCommand → List CustomerCartItemRow → String
  pub get_product_service : ℕ → ℕ → Option ProductService

abbrev pub is_nil {ℓ} : {A : Type ℓ} → List A → Bool
is_nil [] = true
is_nil (x ∷ xs) = false

unfoldable pub load_customer_session_row : String → ℕ → Db → Option CustomerOrderingSession
load_customer_session_row token_hash now db =
    find (λ o. str_eq o.cookie_token_hash token_hash && ltb now o.expires_at)
      db.customer_ordering_sessions

abbrev pub is_active_cart : CustomerOrderingSession → CustomerCartRow → Bool
is_active_cart session_row c =
    (c.tenant_id == session_row.tenant_id)
    && (c.customer_ordering_session_id == session_row.id)
    && is_active c.status

-- `_load_active_cart`
unfoldable pub load_active_cart : CustomerOrderingSession → Db → Option CustomerCartRow
load_active_cart session_row db = find (is_active_cart session_row) db.customer_carts

-- `_cart_item_rows`
unfoldable pub cart_item_rows : CustomerCartRow → Db → List CustomerCartItemRow
cart_item_rows cart_row db =
    order_by (λ i. i.created_at)
      (select (λ i. (i.tenant_id == cart_row.tenant_id) && (i.cart_id == cart_row.id))
        db.customer_cart_items)

-- The rows that the command names, or all where it names none.
abbrev pub is_chosen : List String → CustomerCartItemRow → Bool
is_chosen [] i = true
is_chosen (c ∷ cart_item_ids) i = any (str_eq i.client_cart_item_id) (c ∷ cart_item_ids)

unfoldable pub chosen_rows : SubmitOrderCommand → CustomerCartRow → Db → List CustomerCartItemRow
chosen_rows command cart_row db =
    select (is_chosen command.cart_item_ids) (cart_item_rows cart_row db)

abbrev pub is_submit_key : CustomerOrderingSession → String → OrderSubmitIdempotency → Bool
is_submit_key session_row idempotency_key k =
    (k.tenant_id == session_row.tenant_id)
    && (k.customer_ordering_session_id == session_row.id)
    && str_eq k.idempotency_key idempotency_key

-- `_load_submit_idempotency`
unfoldable pub load_submit_idempotency :
    CustomerOrderingSession → String → Db → Option OrderSubmitIdempotency
load_submit_idempotency session_row idempotency_key db =
    find (is_submit_key session_row idempotency_key) db.order_submit_idempotency

unfoldable pub current_table_session : CustomerOrderingSession → Db → Option TableSession
current_table_session session_row db =
    find
      (λ t.
        (t.tenant_id == session_row.tenant_id)
        && (t.table_id == session_row.table_id)
        && is_open t.status)
      db.table_sessions

unfoldable pub check_of_session : ℕ → Db → Option Check
check_of_session table_session_id db = find (λ c. c.table_session_id == table_session_id) db.checks

abbrev pub submitted_item :
    ℕ → ProductService → ProductVariant → ℕ → CustomerCartItemRow → SubmittedOrderItem
submitted_item order_item_id product variant unit_price row = record {
  order_item_id = order_item_id;
  product_id = product.product_id;
  variant_id = variant.variant_id;
  station_id = product.station_id;
  name = product.name;
  variant_name = variant.name;
  quantity = row.quantity;
  unit_price_minor = unit_price;
  note = row.note;
}

abbrev pub cart_command : CustomerCartItemRow → CartItemWriteCommand
cart_command row = record {
  client_cart_item_id = row.client_cart_item_id;
  product_id = row.product_service_id;
  variant_id = row.product_variant_id;
  modifier_option_ids = row.selected_modifiers;
  quantity = pos row.quantity;
  note = row.note;
}

abbrev pub stored_item : OrderItem → SubmittedOrderItem
stored_item i = record {
  order_item_id = i.id;
  product_id = i.product_service_id;
  variant_id = i.product_variant_id;
  station_id = i.station_id;
  name = i.name_snapshot;
  variant_name = i.variant_name_snapshot;
  quantity = i.quantity;
  unit_price_minor = i.unit_price_minor;
  note = i.note;
}

abbrev pub stored_order : ℕ → ℕ → Order → Db → Option Check → Option SubmittedOrderResult
stored_order tenant_id order_id o db none = none
stored_order tenant_id order_id o db (some c) = some (record {
  order_id = order_id;
  table_session_id = o.table_session_id;
  check_id = c.id;
  items = map stored_item (
      order_by (λ i. i.created_at)
        (select (λ i. (i.tenant_id == tenant_id) && (i.order_id == order_id)) db.order_items));
  cart_cleared = true;
  duplicate = true;
})

-- `_submitted_order_result`; `.one()` fails where there is no row.
unfoldable pub submitted_order : ℕ → ℕ → Db → Option SubmittedOrderResult
unfolding check_of_session
submitted_order tenant_id order_id db =
    elim (find (λ o. (o.tenant_id == tenant_id) && (o.id == order_id)) db.orders) [
      | none ↦ none
      | some o ↦ stored_order tenant_id order_id o db (check_of_session o.table_session_id db)
    ]
