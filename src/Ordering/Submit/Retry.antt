-- ===== src/Ordering/Submit/Retry.antt =====
-- What is left of the cart behind a submitted order.
use io_tables.Common.{
  ℕ, suc, String, ◌≤◌, ◌≡◌, ◌∙◌, ap, refl, Bool, true, false, none, some, List, [], ◌∷◌, find,
  update, count, leb, str_eq, arith, ◌==◌, ==_refl,
}
use io_tables.Errors.{empty_cart}
use io_tables.Database.{
  Db, CustomerOrderingSession, CustomerCartRow, CustomerCartItemRow, submitted,
}
use io_tables.Session.{◌>>=◌, Session, Result, ok, err}
use io_tables.Session.Ends.{
  Ends, Ends-uuid4, Ends-execute, Ends-query, Ends-raise_if, Ends-or_raise_is, Ends-case_option,
  Ends-call, Ends-utc_now,
}
use io_tables.Ordering.Submit.Rows.{
  Services, SubmitOrderCommand, SubmittedOrderResult, load_customer_session_row, load_active_cart,
  is_active_cart, load_submit_idempotency,
}
use io_tables.Ordering.Submit.Carts.{submitted_carts, place_order-Ends}
use io_tables.Ordering.Submit.{load_customer_session, submit_new, submit_order}

find-same {ℓ} :
    {A : Type ℓ} (q r : A → Bool) → ((x : A) → q x ≡ r x) → (xs : List A) → find q xs ≡ find r xs
find-same q r same [] = refl
find-same q r same (x ∷ xs) = ground (arith, same x, find-same q r same xs)

find-update-none {ℓ} :
    {A : Type ℓ} (q r : A → Bool) (f : A → A)
    → ((x : A) → q (f x) ≡ false)
    → (xs : List A) → count q xs ≡ 0
    → find q (update r f xs) ≡ none
find-update-none q r f out [] none_left = refl
find-update-none q r f out (x ∷ xs) none_left = ground (arith, out x, find-update-none q r f out xs)

-- An update that takes out the one row that satisfies `q` leaves none.
find-update_last {ℓ} :
    {A : Type ℓ} (q r : A → Bool) (f : A → A)
    → ((x : A) → q (f x) ≡ false)
    → (xs : List A) (x : A) → find q xs ≡ some x
    → r x ≡ true
    → count q xs ≤ 1
    → find q (update r f xs) ≡ none
find-update_last q r f out [] x found hit one = refl
find-update_last q r f out (y ∷ xs) x found hit one =
    ground (arith, out y, find-update-none q r f out xs, find-update_last q r f out xs x)

-- The call returned with no active cart of the customer session committed, or raised.
abbrev NoCartLeft : CustomerOrderingSession → Bool → Session → Type 0
NoCartLeft session_row true s = load_active_cart session_row s.committed ≡ none
NoCartLeft session_row false s = Unit

load_customer_session_lem :
    (services : Services) (given : String) (session_row : CustomerOrderingSession) (s : Session)
    → str_eq given "" ≡ false
    → load_customer_session_row (services.hash_customer_session_token given) (s.clock s.read) s.db
      ≡ some session_row
    → load_customer_session services (some given) s
      ≡ (ok session_row, record s { read = suc s.read })
unfolding load_customer_session ◌>>=◌
load_customer_session_lem services given session_row s named at_session = simp (named, at_session)

no_cart_of_ok :
    (session_row : CustomerOrderingSession) (o : Result SubmittedOrderResult × Session)
    (answer : SubmittedOrderResult)
    → Ends (NoCartLeft session_row) o
    → o.0 ≡ ok answer
    → load_active_cart session_row o.1.committed ≡ none
no_cart_of_ok session_row (ok a, s) answer h e = h.at
no_cart_of_ok session_row (err x, s) answer h e = cc

-- The carts of a customer session are found by its tenant and its id.
load_active_cart_same :
    (session_row later_row : CustomerOrderingSession) (db committed : Db)
    → later_row.tenant_id ≡ session_row.tenant_id
    → later_row.id ≡ session_row.id
    → db ≡ committed
    → load_active_cart session_row committed ≡ none
    → load_active_cart later_row db ≡ none
unfolding load_active_cart
load_active_cart_same session_row later_row db committed same_tenant same_id same left =
    simp
      (
        same,
        find-same (is_active_cart later_row) (is_active_cart session_row)
            (λ c. simp (same_tenant, same_id) refl) committed.customer_carts,
      )
      left

module _ (services : Services) (given idempotency_key : String) (command : SubmitOrderCommand)
    (session_row : CustomerOrderingSession) (cart_row : CustomerCartRow) (s : Session)
    (named : str_eq given "" ≡ false)
    (at_session : load_customer_session_row
        (services.hash_customer_session_token given)
        (s.clock s.read)
        s.db
      ≡ some session_row)
    (at_cart : load_active_cart session_row s.db ≡ some cart_row)
    (one : count (is_active_cart session_row) s.db.customer_carts ≤ 1)
    (new : load_submit_idempotency session_row idempotency_key s.db ≡ none) where
  cart-submitted :
      (now : ℕ)
      → find (is_active_cart session_row) (submitted_carts cart_row now s.db.customer_carts) ≡ none
  unfolding load_active_cart
  cart-submitted now =
      find-update_last (is_active_cart session_row) (λ c. c.id == cart_row.id)
        (λ c. record c { status = submitted; updated_at = now }) (λ x. ground arith)
        s.db.customer_carts cart_row at_cart (==_refl cart_row.id) one

  submit_new-NoCartLeft :
      (rows : List CustomerCartItemRow) (request_hash : String) (now : ℕ) (s' : Session)
      → s'.db ≡ s.db
      → Ends
          (NoCartLeft session_row)
          (submit_new services session_row cart_row rows idempotency_key request_hash now s')
  unfolding submit_new load_active_cart
  submit_new-NoCartLeft rows request_hash now s' same = Ends-uuid4 _ _ (
      Ends-execute _ _ _ (
        place_order-Ends services session_row cart_row rows idempotency_key now _
          s.db.customer_carts (ap (λ db. db.customer_carts) same) (λ t h. tt)
          (λ t h. ap (find (is_active_cart session_row)) h ∙ cart-submitted now)))

  submit_order-NoCartLeft :
      Ends (NoCartLeft session_row) (submit_order services (some given) idempotency_key command s)
  unfolding submit_order
  submit_order-NoCartLeft =
      Ends-call _ _ _ session_row _
        (load_customer_session_lem services given session_row s named at_session)
        (Ends-utc_now _ _ (
          Ends-raise_if _ _ _ _ tt (λ fresh. Ends-query _ _ _ (
            Ends-or_raise_is _ cart_row _ _ _ at_cart (
              Ends-query _ _ _ (
                Ends-raise_if _ _ _ _ tt (λ has_rows. Ends-query _ _ _ (
                  Ends-case_option _ _ _ _ (λ none. submit_new-NoCartLeft _ _ _ _ refl)
                    (λ k used. cc)))))))))

  -- A guest's order is accepted under a new key, from the only active cart of the customer session.
  -- Then a further submission on what this order committed, before any other request, is refused as
  -- an empty cart, whatever it asks for and whatever its key, also the same request under the same
  -- key; provided that the cookie still finds that session live and its presence is still fresh.
  pub submit_order_retried :
      (answer : SubmittedOrderResult) (again : SubmitOrderCommand) (again_key : String)
      (later : Session) (later_row : CustomerOrderingSession)
      → (submit_order services (some given) idempotency_key command s).0 ≡ ok answer
      → later.db ≡ (submit_order services (some given) idempotency_key command s).1.committed
      → load_customer_session_row
          (services.hash_customer_session_token given)
          (later.clock later.read)
          later.db
        ≡ some later_row
      → later_row.tenant_id ≡ session_row.tenant_id
      → later_row.id ≡ session_row.id
      → leb later_row.presence_valid_until (later.clock (suc later.read)) ≡ false
      → (submit_order services (some given) again_key again later).0 ≡ err empty_cart
  unfolding submit_order ◌>>=◌
  submit_order_retried answer again again_key later later_row accepted at_db at_row same_tenant
        same_id present =
      let left =
        no_cart_of_ok session_row (submit_order services (some given) idempotency_key command s)
          answer submit_order-NoCartLeft accepted in
      simp (
        load_customer_session_lem services given later_row later named at_row,
        present,
        load_active_cart_same session_row later_row later.db _ same_tenant same_id at_db left,
      )
