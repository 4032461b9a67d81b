-- ===== src/Ordering/Cart/Requests.antt =====
-- The cart requests of guests, and what any run of them keeps.
use io_tables.Common.{ℕ, String, Bool, true, Option}
use io_tables.Database.{Db, CustomerOrderingSession, CustomerCartRow}
use io_tables.Session.{Session, begin}
use io_tables.Session.Ends.{
  Ends, Ends-or_raise, Ends-raise_if, Ends-execute, Ends-commit, Ends-uuid4, Ends-utc_now,
  Ends-then, Ends-query_last, ends_rules,
}
use io_tables.Ordering.Menu.{ProductService}
use io_tables.Ordering.Pricing.{CartItemWriteCommand, validate_and_price_cart_item}
use io_tables.Ordering.Submit.Rows.{Services}
use io_tables.Ordering.Submit.{load_customer_session}
use io_tables.Ordering.Cart.Unique.{IsUnique, upsert-IsUnique, delete-IsUnique}
use io_tables.Ordering.Cart.{
  cart_from_row, get_or_create_active_cart, touch_cart, get_cart, write_cart_item,
  add_or_update_cart_item, remove_cart_item,
}

-- The cart items are unique, in the open transaction and among what is committed.
abbrev pub Both : Bool → Session → Type 0
Both ended s = IsUnique s.db.customer_cart_items × IsUnique s.committed.customer_cart_items

module _ (services : Services) where
  load_customer_session-Both :
      (token : Option String) (s : Session)
      → Both true s
      → Ends Both (load_customer_session services token s)
  unfolding load_customer_session
  load_customer_session-Both token s h = search ends_rules depth 20

  get_or_create_active_cart-Both :
      (session_row : CustomerOrderingSession) (s : Session)
      → Both true s
      → Ends Both (get_or_create_active_cart session_row s)
  unfolding get_or_create_active_cart
  get_or_create_active_cart-Both session_row s h = search ends_rules depth 20

  price-Both :
      (product : ProductService) (command : CartItemWriteCommand) (s : Session)
      → Both true s
      → Ends Both (validate_and_price_cart_item product command s)
  unfolding validate_and_price_cart_item
  price-Both product command s h = search ends_rules depth 20

  touch_cart-Both :
      (cart_row : CustomerCartRow) (now : ℕ) (s : Session)
      → Both true s
      → Ends Both (touch_cart cart_row now s)
  unfolding touch_cart
  touch_cart-Both cart_row now s h = search ends_rules depth 20

  write_cart_item-Both :
      (session_row : CustomerOrderingSession) (cart_row : CustomerCartRow)
      (command : CartItemWriteCommand) (s : Session)
      → Both true s
      → Ends Both (write_cart_item services session_row cart_row command s)
  unfolding write_cart_item cart_from_row
  write_cart_item-Both session_row cart_row command s h = Ends-or_raise _ _ _ _ h (λ product found.
      Ends-then Both _ _ _ (price-Both product command s h) (λ s' k. k)
        (λ unit_price s' k. Ends-utc_now _ _ (
          Ends-uuid4 _ _ (
            Ends-execute _ _ _ (
              Ends-then Both _ _ _
                (touch_cart-Both cart_row _ _
                  (upsert-IsUnique _ _ command unit_price _ _ _ k.0, k.1))
                (λ t l. l) (λ touched t l. Ends-commit _ _ (Ends-query_last _ _ (l.0, l.0))))))))

  add_or_update_cart_item-Both :
      (token : Option String) (command : CartItemWriteCommand) (s : Session)
      → Both true s
      → Ends Both (add_or_update_cart_item services token command s)
  unfolding add_or_update_cart_item
  add_or_update_cart_item-Both token command s h = Ends-raise_if _ _ _ _ h (λ positive.
      Ends-then Both _ _ _ (load_customer_session-Both token s h) (λ s' k. k)
        (λ session_row s' k.
          Ends-then Both _ _ _ (get_or_create_active_cart-Both session_row s' k) (λ t l. l)
            (λ cart_row t l. write_cart_item-Both session_row cart_row command t l)))

  remove_cart_item-Both :
      (token : Option String) (client_cart_item_id : String) (s : Session)
      → Both true s
      → Ends Both (remove_cart_item services token client_cart_item_id s)
  unfolding remove_cart_item cart_from_row
  remove_cart_item-Both token client_cart_item_id s h =
      Ends-then Both _ _ _ (load_customer_session-Both token s h) (λ s' k. k)
        (λ session_row s' k.
          Ends-then Both _ _ _ (get_or_create_active_cart-Both session_row s' k) (λ t l. l)
            (λ cart_row t l. Ends-utc_now _ _ (
              Ends-execute _ _ _ (
                Ends-then Both _ _ _ (touch_cart-Both cart_row _ _ (delete-IsUnique _ _ l.0, l.1))
                  (λ u m. m) (λ touched u m. Ends-commit _ _ (Ends-query_last _ _ (m.0, m.0)))))))

  get_cart-Both :
      (token : Option String) (s : Session) → Both true s → Ends Both (get_cart services token s)
  unfolding get_cart cart_from_row
  get_cart-Both token s h =
      Ends-then Both _ _ _ (load_customer_session-Both token s h) (λ s' k. k)
        (λ session_row s' k.
          Ends-then Both _ _ _ (get_or_create_active_cart-Both session_row s' k) (λ t l. l)
            (λ cart_row t l. Ends-query_last _ _ l))

-- A request of a guest about the cart.
pub data CartRequest : Type 0 where
  get_request : Option String → CartRequest
  write_request : Option String → CartItemWriteCommand → CartRequest
  remove_request : Option String → String → CartRequest

-- What is committed once the request is answered.
abbrev pub serve_cart : Services → (ℕ → ℕ) → (ℕ → ℕ) → Db → CartRequest → Db
serve_cart services uuids clock db (get_request token) =
    (get_cart services token (begin db uuids clock)).1.committed
serve_cart services uuids clock db (write_request token command) =
    (add_or_update_cart_item services token command (begin db uuids clock)).1.committed
serve_cart services uuids clock db (remove_request token client_cart_item_id) =
    (remove_cart_item services token client_cart_item_id (begin db uuids clock)).1.committed

-- The databases that such requests, one after the other, can lead to.
pub data CartReaches (services : Services) (db : Db) : Db → Type 0 where
  cart_here : CartReaches services db db
  cart_next :
      {db' : Db} (uuids clock : ℕ → ℕ) (request : CartRequest)
      → CartReaches services db db'
      → CartReaches services db (serve_cart services uuids clock db' request)

serve_cart-IsUnique :
    (services : Services) (uuids clock : ℕ → ℕ) (db : Db) (request : CartRequest)
    → IsUnique db.customer_cart_items
    → IsUnique (serve_cart services uuids clock db request).customer_cart_items
serve_cart-IsUnique services uuids clock db (get_request token) inv =
    (get_cart-Both services token (begin db uuids clock) (inv, inv)).at.1
serve_cart-IsUnique services uuids clock db (write_request token command) inv =
    (add_or_update_cart_item-Both services token command (begin db uuids clock) (inv, inv)).at.1
serve_cart-IsUnique services uuids clock db (remove_request token client_cart_item_id) inv =
    (remove_cart_item-Both services token client_cart_item_id (begin db uuids clock)
      (inv, inv)).at.1

-- From a database in which no cart has two rows of one client id, no sequence of cart requests
-- leads to one in which a cart has.
pub cart_items-IsUnique :
    (services : Services) {db db' : Db}
    → IsUnique db.customer_cart_items
    → CartReaches services db db'
    → IsUnique db'.customer_cart_items
cart_items-IsUnique services inv cart_here = inv
cart_items-IsUnique services inv (cart_next uuids clock request reached) =
    serve_cart-IsUnique services uuids clock _ request (cart_items-IsUnique services inv reached)
