-- ===== src/Ordering/Cart.antt =====
-- The cart: get_cart, add_or_update_cart_item and remove_cart_item of
-- modules/ordering/customer_ordering.py.
pub mod Unique
pub mod Requests
pub mod Written
use io_tables.Common.{
  ℕ, ℤ, pos_part, is_nonpos, ◌+◌, ◌*◌, String, Bool, true, false, ◌&&◌, Option, none, some, List,
  [], ◌∷◌, find, update, insert, delete, any, map, str_eq, ◌==◌, if◌then◌else◌,
}
use io_tables.Database.{Db, CustomerOrderingSession, CustomerCartRow, CustomerCartItemRow, active}
use io_tables.Errors.{validation_failed, not_found_or_hidden, unexpected_error}
use io_tables.Session.{
  Exec, ◌>>=◌, ◌>>◌, pure, raise_if, or_raise, query, execute, commit, uuid4, utc_now, case_option,
}
use io_tables.Ordering.Pricing.{CartItemWriteCommand, validate_and_price_cart_item}
use io_tables.Ordering.Submit.Rows.{Services, load_active_cart, cart_item_rows}
use io_tables.Ordering.Submit.{load_customer_session}

pub record CustomerCartItem : Type 0 where
  pub client_cart_item_id : String
  pub product_id : ℕ
  pub variant_id : ℕ
  pub quantity : ℕ
  pub selected_modifiers : List ℕ
  pub note : Option String
  pub estimated_price_minor : ℕ

-- Its `version` is the text of `updated_at`.
pub record CustomerCart : Type 0 where
  pub cart_id : ℕ
  pub items : List CustomerCartItem
  pub display_subtotal_minor : ℕ
  pub currency : String
  pub updated_at : ℕ

abbrev pub cart_item : CustomerCartItemRow → CustomerCartItem
cart_item row = record {
  client_cart_item_id = row.client_cart_item_id;
  product_id = row.product_service_id;
  variant_id = row.product_variant_id;
  quantity = row.quantity;
  selected_modifiers = row.selected_modifiers;
  note = row.note;
  estimated_price_minor = row.estimated_price_minor;
}

abbrev pub subtotal : List CustomerCartItem → ℕ
subtotal [] = 0
subtotal (item ∷ items) = item.estimated_price_minor + subtotal items

abbrev pub to_cart : CustomerCartRow → List CustomerCartItemRow → CustomerCart
to_cart cart_row rows = record {
  cart_id = cart_row.id;
  items = map cart_item rows;
  display_subtotal_minor = subtotal (map cart_item rows);
  currency = "TRY";
  updated_at = cart_row.updated_at;
}

-- `_cart_from_row`
unfoldable pub cart_from_row : CustomerCartRow → Exec CustomerCart
cart_from_row cart_row = query (λ db. to_cart cart_row (cart_item_rows cart_row db))

abbrev pub new_cart : CustomerOrderingSession → ℕ → ℕ → CustomerCartRow
new_cart session_row now cart_id = record {
  id = cart_id;
  tenant_id = session_row.tenant_id;
  customer_ordering_session_id = session_row.id;
  status = active;
  created_at = now;
  updated_at = now;
}

unfoldable pub cart_by_id : ℕ → Db → Option CustomerCartRow
cart_by_id cart_id db = find (λ c. c.id == cart_id) db.customer_carts

-- `_get_or_create_active_cart`
unfoldable pub get_or_create_active_cart : CustomerOrderingSession → Exec CustomerCartRow
get_or_create_active_cart session_row = do
  row ← query (load_active_cart session_row)
  case_option row
      (utc_now >>= λ now. uuid4 >>= λ cart_id.
        execute (λ db. record db {
          customer_carts = insert (new_cart session_row now cart_id) db.customer_carts;
        })
        >> commit
        >> query (cart_by_id cart_id)
        >>= λ created. or_raise created unexpected_error)
      (λ cart_row. pure cart_row)

-- `insert(..).on_conflict_do_update(..)`, where `same` is the test of the unique constraint.
abbrev pub upsert {ℓ} : {A : Type ℓ} → (A → Bool) → (A → A) → A → List A → List A
upsert same set row rows = if any same rows then update same set rows else insert row rows

-- The row of the cart that has the client's id.
abbrev pub is_item : ℕ → ℕ → String → CustomerCartItemRow → Bool
is_item tenant_id cart_id client_cart_item_id i =
    (i.tenant_id == tenant_id)
    && (i.cart_id == cart_id)
    && str_eq i.client_cart_item_id client_cart_item_id

abbrev pub new_cart_item : ℕ → ℕ → CartItemWriteCommand → ℕ → ℕ → ℕ → CustomerCartItemRow
new_cart_item tenant_id cart_id command unit_price now item_id = record {
  id = item_id;
  tenant_id = tenant_id;
  cart_id = cart_id;
  client_cart_item_id = command.client_cart_item_id;
  product_service_id = command.product_id;
  product_variant_id = command.variant_id;
  quantity = pos_part command.quantity;
  selected_modifiers = command.modifier_option_ids;
  note = command.note;
  estimated_price_minor = unit_price * pos_part command.quantity;
  created_at = now;
  updated_at = now;
}

-- `set_=`
abbrev pub set_cart_item : CartItemWriteCommand → ℕ → ℕ → CustomerCartItemRow → CustomerCartItemRow
set_cart_item command unit_price now i = record i {
  product_service_id = command.product_id;
  product_variant_id = command.variant_id;
  quantity = pos_part command.quantity;
  selected_modifiers = command.modifier_option_ids;
  note = command.note;
  estimated_price_minor = unit_price * pos_part command.quantity;
  updated_at = now;
}

unfoldable pub touch_cart : CustomerCartRow → ℕ → Exec (Unit {0})
touch_cart cart_row now = execute (λ db. record db {
  customer_carts =
      update (λ c. c.id == cart_row.id) (λ c. record c { updated_at = now }) db.customer_carts;
})

module _ (services : Services) where
  unfoldable pub get_cart : Option String → Exec CustomerCart
  get_cart customer_session_token = do
    session_row ← load_customer_session services customer_session_token
    cart_row ← get_or_create_active_cart session_row
    cart_from_row cart_row

  -- `add_or_update_cart_item` once the cart is there.
  unfoldable pub write_cart_item :
      CustomerOrderingSession → CustomerCartRow → CartItemWriteCommand → Exec CustomerCart
  write_cart_item session_row cart_row command = do
    product ←
        or_raise (services.get_product_service session_row.tenant_id command.product_id)
          not_found_or_hidden
    unit_price ← validate_and_price_cart_item product command
    now ← utc_now
    item_id ← uuid4
    execute (λ db. record db {
      customer_cart_items =
          upsert (is_item session_row.tenant_id cart_row.id command.client_cart_item_id)
            (set_cart_item command unit_price now)
            (new_cart_item session_row.tenant_id cart_row.id command unit_price now item_id)
            db.customer_cart_items;
    })
    touch_cart cart_row now
    commit
    cart_from_row cart_row

  unfoldable pub add_or_update_cart_item : Option String → CartItemWriteCommand → Exec CustomerCart
  add_or_update_cart_item customer_session_token command = do
    raise_if (is_nonpos command.quantity) validation_failed
    session_row ← load_customer_session services customer_session_token
    cart_row ← get_or_create_active_cart session_row
    write_cart_item session_row cart_row command

  unfoldable pub remove_cart_item : Option String → String → Exec CustomerCart
  remove_cart_item customer_session_token client_cart_item_id = do
    session_row ← load_customer_session services customer_session_token
    cart_row ← get_or_create_active_cart session_row
    now ← utc_now
    execute (λ db. record db {
      customer_cart_items =
          delete (is_item session_row.tenant_id cart_row.id client_cart_item_id)
            db.customer_cart_items;
    })
    touch_cart cart_row now
    commit
    cart_from_row cart_row
