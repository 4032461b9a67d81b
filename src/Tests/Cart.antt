-- ===== src/Tests/Cart.antt =====
-- The guest of Tests.Ordering changes the order to three teas.
use io_tables.Common.{pos, ◌+◌, ◌≡◌, refl, none, some, [], ◌∷◌, sum, arith}
use io_tables.Session.{ok, ◌>>=◌}
use io_tables.Ordering.Menu.{
  product_to_customer_menu_product, latest_active_availability_state, menu_variants,
}
use io_tables.Ordering.Pricing.{CartItemWriteCommand, validate_and_price_cart_item}
use io_tables.Ordering.Submit.Rows.{load_customer_session_row, load_active_cart, cart_item_rows}
use io_tables.Ordering.Cart.{to_cart, add_or_update_cart_item, is_item}
use io_tables.Ordering.Cart.Unique.{IsUnique}
use io_tables.Ordering.Cart.Requests.{
  cart_here, cart_next, write_request, serve_cart, cart_items-IsUnique,
}
use io_tables.Ordering.Cart.Written.{cart_item_written}
use io_tables.Tests.Ordering.{services, guest, cart, tea, two_teas, seated, ordering}

abbrev three_teas : CartItemWriteCommand
three_teas = record {
  client_cart_item_id = "c1";
  product_id = 60;
  variant_id = 61;
  modifier_option_ids = 65 ∷ [];
  quantity = pos 3;
  note = none;
}

cart_item_written_example :
    ((add_or_update_cart_item services (some "cookie") three_teas ordering).0
      ≡ ok (
          to_cart cart (
            cart_item_rows cart
              (add_or_update_cart_item services (some "cookie") three_teas ordering).1.committed)))
    × (sum
          (is_item 1 32 "c1")
          (λ i. i.estimated_price_minor)
          (add_or_update_cart_item services
            (some "cookie")
            three_teas
            ordering).1.committed.customer_cart_items
        ≡ 480)
unfolding load_customer_session_row load_active_cart validate_and_price_cart_item
    product_to_customer_menu_product latest_active_availability_state menu_variants ◌>>=◌
cart_item_written_example =
    cart_item_written services "cookie" three_teas guest cart tea 160 ordering refl refl refl refl
      refl refl (omega arith)

one_row : IsUnique (two_teas ∷ [])
one_row = record { one = λ tenant_id cart_id client_cart_item_id. ground arith }

cart_items-IsUnique_example :
    IsUnique
      (serve_cart services
        (λ n. 1000 + n)
        (λ n. 100 + n)
        seated
        (write_request (some "cookie") three_teas)).customer_cart_items
cart_items-IsUnique_example =
    cart_items-IsUnique services one_row (
      cart_next (λ n. 1000 + n) (λ n. 100 + n) (write_request (some "cookie") three_teas) cart_here)
