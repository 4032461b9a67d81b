-- ===== src/Ordering/Cart/Written.antt =====
-- An item that is written into the cart: what it costs, and what is answered.
use io_tables.Common.{
  ℕ, suc, ◌*◌, ◌≤◌, ◌≡◌, refl, String, Bool, true, false, is_nonpos, pos_part, some, List, [], ◌∷◌,
  any, count, sum, update, str_eq, eq_refl, arith, sum-insert, Bool-cases, inl, inr, ==_refl, ◌==◌,
}
use io_tables.Database.{Db, CustomerOrderingSession, CustomerCartRow, CustomerCartItemRow}
use io_tables.Session.{Session, Result, ok, err, ◌>>=◌, case_option}
use io_tables.Session.Ends.{Ends, ends_rules}
use io_tables.Ordering.Menu.{ProductService}
use io_tables.Ordering.Pricing.{CartItemWriteCommand, validate_and_price_cart_item}
use io_tables.Ordering.Submit.Rows.{
  Services, load_customer_session_row, load_active_cart, cart_item_rows,
}
use io_tables.Ordering.Submit.{load_customer_session}
use io_tables.Ordering.Cart.{
  to_cart, cart_from_row, get_or_create_active_cart, upsert, is_item, new_cart_item, set_cart_item,
  touch_cart, write_cart_item, add_or_update_cart_item,
}

module _ {ℓ} {A : Type ℓ} (p : A → Bool) (f : A → ℕ) where
  sum-update_none : (g : A → A) (xs : List A) → count p xs ≡ 0 → sum p f (update p g xs) ≡ 0
  sum-update_none g [] h = refl
  sum-update_none g (x ∷ xs) h = ground (arith, sum-update_none g xs)

  sum-any : (xs : List A) → any p xs ≡ false → sum p f xs ≡ 0
  sum-any [] h = refl
  sum-any (x ∷ xs) h = ground (arith, sum-any xs)

  -- An update that keeps the one row of a sum, and gives it a value.
  sum-update_one :
      (g : A → A) (v : ℕ)
      → ((x : A) → p (g x) ≡ p x)
      → ((x : A) → f (g x) ≡ v)
      → (xs : List A) → count p xs ≤ 1
      → any p xs ≡ true
      → sum p f (update p g xs) ≡ v
  sum-update_one g v keeps gives [] one there = ground arith
  sum-update_one g v keeps gives (x ∷ xs) one there =
      ground (arith, keeps x, gives x, sum-update_none g xs, sum-update_one g v keeps gives xs)

-- Pricing reads the clock once and changes nothing.
price-session :
    (product : ProductService) (command : CartItemWriteCommand) (s : Session)
    → Ends
        (λ ended s'. s' ≡ record s { read = suc s.read })
        (validate_and_price_cart_item product command s)
unfolding validate_and_price_cart_item
price-session product command s = search ends_rules depth 20

outcome_lem {ℓ} :
    {A : Type ℓ} (o : Result A × Session) (a : A) (s : Session)
    → o.0 ≡ ok a
    → Ends (λ ended s'. s' ≡ s) o
    → o ≡ (ok a, s)
outcome_lem (ok b, t) a s h e = cc (h, e.at)
outcome_lem (err b, t) a s h e = cc

module _ (services : Services) (token : String) (command : CartItemWriteCommand)
    (session_row : CustomerOrderingSession) (cart_row : CustomerCartRow) (unit_price : ℕ)
    (s : Session) where
  abbrev pub its_row : CustomerCartItemRow → Bool
  its_row = is_item session_row.tenant_id cart_row.id command.client_cart_item_id

  abbrev pub written_db : Db
  written_db = record s.db {
    customer_cart_items =
        upsert its_row (set_cart_item command unit_price (s.clock (suc (suc s.read))))
          (new_cart_item session_row.tenant_id cart_row.id command unit_price
            (s.clock (suc (suc s.read))) (s.uuids s.drawn))
          s.db.customer_cart_items;
    customer_carts =
        update (λ c. c.id == cart_row.id)
          (λ c. record c { updated_at = s.clock (suc (suc s.read)) }) s.db.customer_carts;
  }

  its_total :
      count its_row s.db.customer_cart_items ≤ 1
      → sum its_row (λ i. i.estimated_price_minor) written_db.customer_cart_items
        ≡ unit_price * pos_part command.quantity
  its_total one = elim (Bool-cases (any its_row s.db.customer_cart_items)) [
    | inl there ↦ rw there (
        sum-update_one its_row (λ i. i.estimated_price_minor)
          (set_cart_item command unit_price (s.clock (suc (suc s.read))))
          (unit_price * pos_part command.quantity) (λ x. refl) (λ x. refl) s.db.customer_cart_items
          one there)
    | inr absent ↦ rw absent (
        grind (
          arith,
          sum-any its_row (λ i. i.estimated_price_minor) s.db.customer_cart_items absent,
          ==_refl session_row.tenant_id,
          ==_refl cart_row.id,
          eq_refl command.client_cart_item_id,
          sum-insert its_row (λ i. i.estimated_price_minor)
              (new_cart_item session_row.tenant_id cart_row.id command unit_price
                (s.clock (suc (suc s.read))) (s.uuids s.drawn))
              s.db.customer_cart_items,
        ))
  ]

  add_accepts :
      (product : ProductService)
      → is_nonpos command.quantity ≡ false
      → str_eq token "" ≡ false
      → load_customer_session_row (services.hash_customer_session_token token) (s.clock s.read) s.db
        ≡ some session_row
      → load_active_cart session_row s.db ≡ some cart_row
      → services.get_product_service session_row.tenant_id command.product_id ≡ some product
      → validate_and_price_cart_item product command (record s { read = suc s.read })
        ≡ (ok unit_price, record s { read = suc (suc s.read) })
      → add_or_update_cart_item services (some token) command s ≡ (
        ok (to_cart cart_row (cart_item_rows cart_row written_db)),
        record s {
          db = written_db;
          committed = written_db;
          drawn = suc s.drawn;
          read = suc (suc (suc s.read));
        },
      )
  unfolding add_or_update_cart_item load_customer_session get_or_create_active_cart write_cart_item
      touch_cart cart_from_row case_option ◌>>=◌
  add_accepts product positive text at_session at_cart at_product priced =
      simp (positive, text, at_session, at_cart, at_product, priced)

-- A positive quantity of an item that the menu prices, written by a guest with a live session and an
-- active cart in which at most one row has the client's id for it, is committed: the answer shows
-- the rows of the cart as they are committed, and the rows with this id cost the price times the
-- quantity, whether the item was new to the cart or replaces another.
pub cart_item_written :
    (services : Services) (token : String) (command : CartItemWriteCommand)
    (session_row : CustomerOrderingSession) (cart_row : CustomerCartRow) (product : ProductService)
    (unit_price : ℕ) (s : Session)
    → is_nonpos command.quantity ≡ false
    → str_eq token "" ≡ false
    → load_customer_session_row (services.hash_customer_session_token token) (s.clock s.read) s.db
      ≡ some session_row
    → load_active_cart session_row s.db ≡ some cart_row
    → services.get_product_service session_row.tenant_id command.product_id ≡ some product
    → (validate_and_price_cart_item product command (record s { read = suc s.read })).0
      ≡ ok unit_price
    → count
        (is_item session_row.tenant_id cart_row.id command.client_cart_item_id)
        s.db.customer_cart_items
      ≤ 1
    → ((add_or_update_cart_item services (some token) command s).0
        ≡ ok (
            to_cart cart_row (
              cart_item_rows cart_row
                (add_or_update_cart_item services (some token) command s).1.committed)))
      × (sum
            (is_item session_row.tenant_id cart_row.id command.client_cart_item_id)
            (λ i. i.estimated_price_minor)
            (add_or_update_cart_item services
              (some token)
              command
              s).1.committed.customer_cart_items
          ≡ unit_price * pos_part command.quantity)
cart_item_written services token command session_row cart_row product unit_price s positive text
      at_session at_cart at_product priced one =
    rw
      (add_accepts services token command session_row cart_row unit_price s product positive text
        at_session at_cart at_product
        (outcome_lem (validate_and_price_cart_item product command (record s { read = suc s.read }))
          unit_price (record s { read = suc (suc s.read) }) priced
          (price-session product command (record s { read = suc s.read }))))
      (refl, its_total services token command session_row cart_row unit_price s one)
