-- ===== src/Ordering/Submit/Refused.antt =====
-- A submission that is refused leaves no trace.
use io_tables.Common.{ℕ, suc, String, Bool, false, ◌≡◌, refl, List, Option}
use io_tables.Errors.{ApiError}
use io_tables.Database.{
  CustomerOrderingSession, CustomerCartRow, CustomerCartItemRow, OrderSubmitIdempotency,
}
use io_tables.Session.{◌>>=◌, Exec, Session, err}
use io_tables.Session.Ends.{
  Ends, Untouched, Ends-uuid4, Ends-execute, Ends-Untouched, Ends-utc_now, Ends-raise_if,
  Ends-query, Ends-or_raise, Ends-case_option, ends_rules,
}
use io_tables.Ordering.Submit.Rows.{Services, SubmitOrderCommand}
use io_tables.Ordering.Submit.Carts.{place_order-Ends}
use io_tables.Ordering.Submit.{
  load_customer_session, place_order, submit_new, submit_again, submit_order,
}

module _ (services : Services) (session_row : CustomerOrderingSession) (cart_row : CustomerCartRow)
    (rows : List CustomerCartItemRow) (idempotency_key request_hash : String) (now : ℕ) where
  place_order-Untouched :
      (s : Session)
      → Ends
          (Untouched s.committed)
          (place_order services session_row cart_row rows idempotency_key now s)
  place_order-Untouched s =
      place_order-Ends services session_row cart_row rows idempotency_key now s s.db.customer_carts
        refl (λ s' h. h) (λ s' h. tt)

  submit_new-Untouched :
      (s : Session)
      → Ends
          (Untouched s.committed)
          (submit_new services session_row cart_row rows idempotency_key request_hash now s)
  unfolding submit_new
  submit_new-Untouched s = Ends-uuid4 _ _ (Ends-execute _ _ _ (place_order-Untouched _))

  submit_again-Untouched :
      (k : OrderSubmitIdempotency) (s : Session)
      → Ends
          (Untouched s.committed)
          (submit_again services session_row cart_row rows idempotency_key request_hash now k s)
  unfolding submit_again
  submit_again-Untouched k s = search (ends_rules, place_order-Untouched) depth 20

-- What follows a customer session that was loaded, at whatever time.
Ends-load_customer_session {ℓ} :
    {B : Type ℓ} {P : Bool → Session → Type 0} (services : Services) (token : Option String)
    (f : CustomerOrderingSession → Exec B) (s : Session)
    → P false s
    → P false (record s { read = suc s.read })
    → ((row : CustomerOrderingSession) → Ends P (f row (record s { read = suc s.read })))
    → Ends P ((load_customer_session services token >>= f) s)
unfolding load_customer_session
Ends-load_customer_session services token f s fails fails_later rest = search ends_rules depth 20

submit_order-Untouched :
    (services : Services) (token : Option String) (idempotency_key : String)
    (command : SubmitOrderCommand) (s : Session)
    → Ends (Untouched s.committed) (submit_order services token idempotency_key command s)
unfolding submit_order
submit_order-Untouched services token idempotency_key command s =
    Ends-load_customer_session services token _ s refl refl (λ session_row. Ends-utc_now _ _ (
      Ends-raise_if _ _ _ _ refl (λ fresh. Ends-query _ _ _ (
        Ends-or_raise _ _ _ _ refl (λ cart_row at_cart. Ends-query _ _ _ (
          Ends-raise_if _ _ _ _ refl (λ has_rows. Ends-query _ _ _ (
            Ends-case_option _ _ _ _
              (λ none. submit_new-Untouched services session_row cart_row _ _ _ _ _)
              (λ k used. submit_again-Untouched services session_row cart_row _ _ _ _ k _)))))))))

-- A submission that is refused, also halfway through its cart, leaves what is committed alone: no
-- part of the order reaches the kitchen or the bill.
pub submit_order_refused :
    (services : Services) (token : Option String) (idempotency_key : String)
    (command : SubmitOrderCommand) (s : Session) {e : ApiError}
    → (submit_order services token idempotency_key command s).0 ≡ err e
    → (submit_order services token idempotency_key command s).1.committed ≡ s.committed
submit_order_refused services token idempotency_key command s =
    Ends-Untouched (submit_order services token idempotency_key command s)
      (submit_order-Untouched services token idempotency_key command s)
