-- ===== src/Ordering/Submit/Carts.antt =====
-- `submit_order` up to its commit leaves the carts alone, and then submits one.
use io_tables.Common.{ℕ, String, ◌≡◌, ap, refl, Bool, true, false, List, [], ◌∷◌, update, ◌==◌}
use io_tables.Database.{
  Db, CustomerOrderingSession, CustomerCartRow, CustomerCartItemRow, submitted,
}
use io_tables.Session.{Session}
use io_tables.Session.Ends.{
  Ends, Pending, Ends-pure, Ends-Pending, Ends-uuid4, Ends-execute, Ends-commit, ends_rules,
}
use io_tables.Ordering.Menu.{ProductService}
use io_tables.Ordering.Pricing.{CartItemWriteCommand, validate_and_price_cart_item}
use io_tables.Ordering.Submit.Rows.{Services, SubmittedOrderItem}
use io_tables.Ordering.Submit.{
  submit_item, submit_each, open_table_session, open_check, place_order,
}

-- The carts of the open transaction are those that the order was submitted from.
abbrev pub SameCarts : List CustomerCartRow → Db → Type 0
SameCarts carts db = db.customer_carts ≡ carts

module _ (services : Services) (session_row : CustomerOrderingSession)
    (carts : List CustomerCartRow) (c : Db) where
  kept_carts :
      (s : Session) → s.committed ≡ c → SameCarts carts s.db → Pending (SameCarts carts) c true s
  kept_carts s same kept = (same, kept)

  price-Pending :
      (product : ProductService) (command : CartItemWriteCommand) (s : Session)
      → s.committed ≡ c
      → SameCarts carts s.db
      → Ends (Pending (SameCarts carts) c) (validate_and_price_cart_item product command s)
  unfolding validate_and_price_cart_item
  price-Pending product command s same kept = search (ends_rules, kept_carts) depth 20

  submit_item-Pending :
      (order_id now : ℕ) (row : CustomerCartItemRow) (s : Session)
      → s.committed ≡ c
      → SameCarts carts s.db
      → Ends (Pending (SameCarts carts) c) (submit_item services session_row order_id now row s)
  unfolding submit_item
  submit_item-Pending order_id now row s same kept =
      search
        (
          ends_rules,
          Ends-Pending {0, 0} {A = ℕ} {B = SubmittedOrderItem} {P = Pending (SameCarts carts) c}
              (SameCarts carts) c,
          price-Pending,
          kept_carts,
        )
        depth 40

  submit_each-Pending :
      (order_id now : ℕ) (rows : List CustomerCartItemRow) (s : Session)
      → s.committed ≡ c
      → SameCarts carts s.db
      → Ends (Pending (SameCarts carts) c) (submit_each services session_row order_id now rows s)
  unfolding submit_each
  submit_each-Pending order_id now [] s same kept = Ends-pure _ s (same, kept)
  submit_each-Pending order_id now (row ∷ rows) s same kept =
      Ends-Pending (SameCarts carts) c _ _ s (submit_item-Pending order_id now row s same kept)
        (λ s' h. h)
        (λ item s' h k.
          Ends-Pending (SameCarts carts) c _ _ s' (submit_each-Pending order_id now rows s' h k)
            (λ s'' h'. h') (λ rest s'' h' k'. Ends-pure _ s'' (h', k')))

  open_table_session-Pending :
      (now : ℕ) (s : Session)
      → s.committed ≡ c
      → SameCarts carts s.db
      → Ends (Pending (SameCarts carts) c) (open_table_session services session_row now s)
  unfolding open_table_session
  open_table_session-Pending now s same kept = search ends_rules depth 20

  open_check-Pending :
      (table_session_id now : ℕ) (s : Session)
      → s.committed ≡ c
      → SameCarts carts s.db
      → Ends (Pending (SameCarts carts) c) (open_check services session_row table_session_id now s)
  unfolding open_check
  open_check-Pending table_session_id now s same kept = search ends_rules depth 20

-- The carts with one of them submitted.
abbrev pub submitted_carts : CustomerCartRow → ℕ → List CustomerCartRow → List CustomerCartRow
submitted_carts cart_row now carts =
    update (λ c. c.id == cart_row.id) (λ c. record c { status = submitted; updated_at = now }) carts

pub place_order-Ends :
    {P : Bool → Session → Type 0} (services : Services) (session_row : CustomerOrderingSession)
    (cart_row : CustomerCartRow) (rows : List CustomerCartItemRow) (idempotency_key : String)
    (now : ℕ) (s : Session) (carts : List CustomerCartRow)
    → SameCarts carts s.db
    → ((s' : Session) → s'.committed ≡ s.committed → P false s')
    → ((s' : Session)
        → s'.committed.customer_carts ≡ submitted_carts cart_row now carts
        → P true s')
    → Ends P (place_order services session_row cart_row rows idempotency_key now s)
unfolding place_order
place_order-Ends services session_row cart_row rows idempotency_key now s carts kept fails returns =
    let Same : Db → Type 0 = SameCarts carts in
    Ends-Pending Same s.committed _ _ s
      (open_table_session-Pending services session_row carts s.committed now s refl kept) fails
      (λ table_session_id s' h k.
        Ends-Pending Same s.committed _ _ s'
          (open_check-Pending services session_row carts s.committed table_session_id now s' h k)
          fails
          (λ check_id s'' h' k'. Ends-uuid4 _ _ (
            Ends-execute _ _ _ (
              Ends-Pending Same s.committed _ _ _
                (submit_each-Pending services session_row carts s.committed _ now rows _ h' k')
                fails
                (λ items t h'' k''. Ends-execute _ _ _ (
                  Ends-execute _ _ _ (
                    Ends-execute _ _ _ (
                      Ends-commit _ _
                        (Ends-pure _ _ (returns _ (ap (submitted_carts cart_row now) k'')))))))))))
