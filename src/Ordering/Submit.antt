-- ===== src/Ordering/Submit.antt =====
-- CustomerOrderingService.submit_order of modules/ordering/customer_ordering.py.
pub mod Rows
mod Inserts
pub mod Carts
pub mod Retry
pub mod Refused
use io_tables.Common.{
  ℕ, String, Bool, true, false, not, ◌&&◌, ◌||◌, Option, none, some, List, [], ◌∷◌, find, update,
  insert, map, is_none, leb, str_eq, ◌==◌, if◌then◌else◌,
}
use io_tables.Errors.{
  session_expired, fresh_presence_required, empty_cart, idempotency_conflict, not_found_or_hidden,
  variant_invalid, unexpected_error,
}
use io_tables.Database.{
  Db, CustomerOrderingSession, CustomerCartRow, CustomerCartItemRow, Order, OrderItem,
  OrderSubmitIdempotency, PreparationItem, PreparationTransition, TableSession, Check, submitted,
  pending, opened, processing, completed, is_completed,
}
use io_tables.Session.{
  Exec, ◌>>=◌, ◌>>◌, pure, raise_if, or_raise, query, execute, commit, uuid4, utc_now, case_option,
}
use io_tables.Ordering.Menu.{ProductService}
use io_tables.Ordering.Pricing.{CartItemWriteCommand, validate_and_price_cart_item}
use io_tables.Ordering.Submit.Rows.{
  SubmitOrderCommand, SubmittedOrderItem, SubmittedOrderResult, Services, is_nil,
  load_customer_session_row, load_active_cart, chosen_rows, load_submit_idempotency, is_submit_key,
  current_table_session, check_of_session, submitted_item, cart_command, submitted_order,
}
use io_tables.Ordering.Submit.Inserts.{
  new_submit_key, new_order, new_order_item, new_preparation_item, first_transition,
  new_table_session, new_check,
}

module _ (services : Services) where
  -- `_load_customer_session`
  unfoldable pub load_customer_session : Option String → Exec CustomerOrderingSession
  load_customer_session token = do
    given ← or_raise token session_expired
    raise_if (str_eq given "") session_expired
    now ← utc_now
    row ← query (load_customer_session_row (services.hash_customer_session_token given) now)
    or_raise row session_expired

  -- One turn of the loop over the cart. The variant that was priced is one of the product's.
  unfoldable pub submit_item :
      CustomerOrderingSession → ℕ → ℕ → CustomerCartItemRow → Exec SubmittedOrderItem
  submit_item session_row order_id now row = do
    product ←
        or_raise (services.get_product_service session_row.tenant_id row.product_service_id)
          not_found_or_hidden
    unit_price ← validate_and_price_cart_item product (cart_command row)
    variant ←
        or_raise (find (λ v. v.variant_id == row.product_variant_id) product.variants)
          unexpected_error
    order_item_id ← uuid4
    execute (λ db. record db {
      order_items =
          insert
            (new_order_item session_row order_id product variant unit_price row now order_item_id)
            db.order_items;
    })
    preparation_item_id ← uuid4
    execute (λ db. record db {
      preparation_items =
          insert (new_preparation_item session_row order_item_id product now preparation_item_id)
            db.preparation_items;
    })
    transition_id ← uuid4
    execute (λ db. record db {
      preparation_transitions =
          insert (first_transition session_row preparation_item_id now transition_id)
            db.preparation_transitions;
    })
    pure (submitted_item order_item_id product variant unit_price row)

  unfoldable pub submit_each :
      CustomerOrderingSession → ℕ → ℕ → List CustomerCartItemRow → Exec (List SubmittedOrderItem)
  submit_each session_row order_id now [] = pure []
  submit_each session_row order_id now (row ∷ rows) = do
    item ← submit_item session_row order_id now row
    rest ← submit_each session_row order_id now rows
    pure (item ∷ rest)

  -- `_open_table_session_and_check`, first the session. One open session at a table is what the
  -- unique index asks for, and there is none where one is inserted.
  unfoldable pub open_table_session : CustomerOrderingSession → ℕ → Exec ℕ
  open_table_session session_row now = do
    current ← query (current_table_session session_row)
    case_option current
        (uuid4 >>= λ table_session_id.
          execute (λ db. record db {
            table_sessions =
                insert (new_table_session session_row now table_session_id) db.table_sessions;
          })
          >> pure table_session_id)
        (λ t. pure t.id)

  -- Then the check.
  unfoldable pub open_check : CustomerOrderingSession → ℕ → ℕ → Exec ℕ
  open_check session_row table_session_id now = do
    check_row ← query (check_of_session table_session_id)
    case_option check_row
        (uuid4 >>= λ check_id.
          execute (λ db. record db {
            checks = insert (new_check session_row table_session_id now check_id) db.checks;
          })
          >> pure check_id)
        (λ c. pure c.id)

  -- `submit_order` from the table session on.
  unfoldable pub place_order :
      CustomerOrderingSession
      → CustomerCartRow
      → List CustomerCartItemRow
      → String
      → ℕ
      → Exec SubmittedOrderResult
  place_order session_row cart_row cart_items idempotency_key now = do
    table_session_id ← open_table_session session_row now
    check_id ← open_check session_row table_session_id now
    order_id ← uuid4
    execute (λ db. record db {
      orders = insert (new_order session_row table_session_id now order_id) db.orders;
    })
    submitted_items ← submit_each session_row order_id now cart_items
    execute (λ db. record db {
      customer_carts =
          update (λ c. c.id == cart_row.id) (λ c. record c { status = submitted; updated_at = now })
            db.customer_carts;
    })
    execute (λ db. record db {
      customer_ordering_sessions =
          update (λ o. o.id == session_row.id)
            (λ o. record o {
              table_session_id = some table_session_id;
              last_seen_at = now;
              updated_at = now;
            })
            db.customer_ordering_sessions;
    })
    execute (λ db. record db {
      order_submit_idempotency =
          update (is_submit_key session_row idempotency_key)
            (λ k. record k {
              order_id = some order_id;
              status = completed;
              completed_at = some now;
            })
            db.order_submit_idempotency;
    })
    commit
    pure (record {
      order_id = order_id;
      table_session_id = table_session_id;
      check_id = check_id;
      items = submitted_items;
      cart_cleared = true;
      duplicate = false;
    })

  -- A key that is new.
  unfoldable pub submit_new :
      CustomerOrderingSession
      → CustomerCartRow
      → List CustomerCartItemRow
      → String
      → String
      → ℕ
      → Exec SubmittedOrderResult
  submit_new session_row cart_row cart_items idempotency_key request_hash now = do
    key_id ← uuid4
    execute (λ db. record db {
      order_submit_idempotency =
          insert (new_submit_key session_row idempotency_key request_hash now key_id)
            db.order_submit_idempotency;
    })
    place_order session_row cart_row cart_items idempotency_key now

  -- A key that was used before: `status == "completed" and order_id`, or the order is placed again.
  unfoldable pub submit_again :
      CustomerOrderingSession
      → CustomerCartRow
      → List CustomerCartItemRow
      → String
      → String
      → ℕ
      → OrderSubmitIdempotency
      → Exec SubmittedOrderResult
  submit_again session_row cart_row cart_items idempotency_key request_hash now k = do
    raise_if (not (str_eq k.request_hash request_hash)) idempotency_conflict
    case_option (if is_completed k.status then k.order_id else none)
        (place_order session_row cart_row cart_items idempotency_key now)
        (λ order_id. query (submitted_order session_row.tenant_id order_id) >>= λ answer.
          or_raise answer unexpected_error)

  unfoldable pub submit_order :
      Option String → String → SubmitOrderCommand → Exec SubmittedOrderResult
  submit_order token idempotency_key command = do
    session_row ← load_customer_session token
    now ← utc_now
    raise_if (leb session_row.presence_valid_until now) fresh_presence_required
    found_cart ← query (load_active_cart session_row)
    cart_row ← or_raise found_cart empty_cart
    cart_items ← query (chosen_rows command cart_row)
    raise_if (is_nil cart_items) empty_cart
    existing ← query (load_submit_idempotency session_row idempotency_key)
    case_option existing
        (submit_new session_row cart_row cart_items idempotency_key
          (services.hash_submit_request command cart_items) now)
        (submit_again session_row cart_row cart_items idempotency_key
          (services.hash_submit_request command cart_items) now)
