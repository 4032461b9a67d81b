-- ===== src/Tests/Ordering.antt =====
-- A guest at the table orders two glasses of tea with sugar.
use io_tables.Common.{
  pos, ◌+◌, ◌≡◌, refl, true, false, none, some, [], ◌∷◌, order_by, arith, ◌==◌, if◌then◌else◌,
}
use io_tables.Database.{Db, CustomerOrderingSession, CustomerCartRow, CustomerCartItemRow, active}
use io_tables.Errors.{empty_cart, fresh_presence_required}
use io_tables.Session.{Session, ok, err, ◌>>=◌, case_option, begin}
use io_tables.Ordering.Menu.{
  ProductService, ProductVariant, ModifierOption, ModifierGroup, latest_active_availability_state,
  CustomerMenuProduct, menu_variant, menu_group, menu_variants, product_to_customer_menu_product,
}
use io_tables.Ordering.Pricing.{CartItemWriteCommand, validate_and_price_cart_item}
use io_tables.Ordering.Pricing.Laws.{validate_and_price_decides}
use io_tables.Ordering.Submit.{
  load_customer_session, submit_item, submit_each, open_table_session, open_check, place_order,
  submit_new, submit_order,
}
use io_tables.Ordering.Submit.Rows.{
  Services, SubmitOrderCommand, SubmittedOrderResult, load_customer_session_row, load_active_cart,
  cart_item_rows, chosen_rows, load_submit_idempotency, current_table_session, check_of_session,
}
use io_tables.Ordering.Submit.Retry.{submit_order_retried}
use io_tables.Ordering.Submit.Refused.{submit_order_refused}
use io_tables.Tests.Fixture.{venue}

abbrev pub glass : ProductVariant
glass = record {
  variant_id = 61;
  product_id = 60;
  name = "Glass";
  price_minor = 150;
  currency_code = "TRY";
  display_order = 1;
  is_default = true;
  enabled = true;
}

abbrev pub sugar : ModifierOption
sugar = record {
  option_id = 65;
  group_id = 64;
  name = "Sugar";
  price_delta_minor = 10;
  currency_code = "TRY";
  available = true;
  display_order = 1;
}

abbrev pub extras : ModifierGroup
extras = record {
  group_id = 64;
  product_id = 60;
  name = "Extras";
  required = false;
  min_selections = 0;
  max_selections = 1;
  display_order = 1;
  options = sugar ∷ [];
}

abbrev pub tea : ProductService
tea = record {
  product_id = 60;
  category_id = 59;
  station_id = 62;
  name = "Tea";
  description = none;
  enabled = true;
  variants = glass ∷ [];
  modifier_groups = extras ∷ [];
  availability = [];
  created_at = 5;
  updated_at = 5;
}

abbrev pub services : Services
services = record {
  hash_customer_session_token = λ token. token;
  hash_submit_request = λ command rows. command.cart_version;
  get_product_service = λ tenant_id product_id. if product_id == 60 then some tea else none;
}

abbrev pub guest : CustomerOrderingSession
guest = record {
  id = 31;
  tenant_id = 1;
  table_id = 4;
  table_session_id = none;
  cookie_token_hash = "cookie";
  presence_valid_until = 500;
  expires_at = 1000;
  last_seen_at = 60;
  created_at = 60;
  updated_at = 60;
}

abbrev pub cart : CustomerCartRow
cart = record {
  id = 32;
  tenant_id = 1;
  customer_ordering_session_id = 31;
  status = active;
  created_at = 60;
  updated_at = 60;
}

abbrev pub two_teas : CustomerCartItemRow
two_teas = record {
  id = 33;
  tenant_id = 1;
  cart_id = 32;
  client_cart_item_id = "c1";
  product_service_id = 60;
  product_variant_id = 61;
  quantity = 2;
  selected_modifiers = 65 ∷ [];
  note = none;
  estimated_price_minor = 320;
  created_at = 60;
  updated_at = 60;
}

abbrev pub seated : Db
seated = record venue {
  customer_ordering_sessions = guest ∷ [];
  customer_carts = cart ∷ [];
  customer_cart_items = two_teas ∷ [];
}

abbrev pub ordering : Session
ordering = begin seated (λ n. 1000 + n) (λ n. 100 + n)

abbrev command : SubmitOrderCommand
command = record { cart_version = "v"; cart_item_ids = [] }

abbrev ordered : SubmittedOrderResult
ordered = record {
  order_id = 1001;
  table_session_id = 10;
  check_id = 20;
  items =
      (record {
        order_item_id = 1002;
        product_id = 60;
        variant_id = 61;
        station_id = 62;
        name = "Tea";
        variant_name = "Glass";
        quantity = 2;
        unit_price_minor = 160;
        note = none;
      }
        ∷ []);
  cart_cleared = true;
  duplicate = false;
}

accepted : (submit_order services (some "cookie") "k" command ordering).0 ≡ ok ordered
unfolding submit_order load_customer_session load_customer_session_row load_active_cart chosen_rows
    cart_item_rows order_by load_submit_idempotency submit_new place_order open_table_session
    current_table_session open_check check_of_session submit_each submit_item
    validate_and_price_cart_item product_to_customer_menu_product latest_active_availability_state
    menu_variants case_option ◌>>=◌
accepted = refl

-- The same request a little later.
abbrev later : Session
later =
    begin (submit_order services (some "cookie") "k" command ordering).1.committed (λ n. 2000 + n)
      (λ n. 200 + n)

abbrev guest_later : CustomerOrderingSession
guest_later = record guest { table_session_id = some 10; last_seen_at = 101; updated_at = 101 }

known : load_customer_session_row "cookie" 200 later.db ≡ some guest_later
unfolding submit_order load_customer_session load_customer_session_row load_active_cart chosen_rows
    cart_item_rows order_by load_submit_idempotency submit_new place_order open_table_session
    current_table_session open_check check_of_session submit_each submit_item
    validate_and_price_cart_item product_to_customer_menu_product latest_active_availability_state
    menu_variants case_option ◌>>=◌
known = refl

submit_order_retried_example :
    (submit_order services (some "cookie") "k" command later).0 ≡ err empty_cart
unfolding load_customer_session_row load_active_cart load_submit_idempotency
submit_order_retried_example =
    submit_order_retried services "cookie" "k" command guest cart ordering refl refl refl
      (omega arith) refl ordered command "k" later guest_later accepted refl known refl refl refl

abbrev too_late_to_order : Session
too_late_to_order = begin seated (λ n. 1000 + n) (λ n. 600 + n)

gone :
    (submit_order services (some "cookie") "k" command too_late_to_order).0
    ≡ err fresh_presence_required
unfolding submit_order load_customer_session load_customer_session_row ◌>>=◌
gone = refl

submit_order_refused_example :
    (submit_order services (some "cookie") "k" command too_late_to_order).1.committed
    ≡ too_late_to_order.committed
submit_order_refused_example =
    submit_order_refused services (some "cookie") "k" command too_late_to_order gone

abbrev sweet_tea : CartItemWriteCommand
sweet_tea = record {
  client_cart_item_id = "c1";
  product_id = 60;
  variant_id = 61;
  modifier_option_ids = 65 ∷ 65 ∷ [];
  quantity = pos 2;
  note = none;
}

abbrev tea_on_menu : CustomerMenuProduct
tea_on_menu = record {
  product_id = 60;
  category_id = 59;
  name = "Tea";
  description = none;
  variants = menu_variant glass ∷ [];
  modifier_groups = menu_group extras ∷ [];
}

validate_and_price_decides_example :
    (validate_and_price_cart_item tea sweet_tea ordering).0 ≡ ok 160
unfolding product_to_customer_menu_product latest_active_availability_state menu_variants
validate_and_price_decides_example =
    validate_and_price_decides tea sweet_tea tea_on_menu (menu_variant glass) ordering refl refl
      refl
