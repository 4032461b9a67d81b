-- ===== src/Settlement/Payments/VoidErrors.antt =====
-- A void that is refused leaves no trace.
use io_tables.Common.{
  ℕ, suc, ◌≡◌, ◌≢◌, Bool, true, false, not, ◌||◌, none, some, List, [], ◌∷◌, select, insert, latest,
  is_none, arith, eq_refl, Option-cases, inl, inr,
}
use io_tables.Actor.{ActorContext}
use io_tables.Errors.{ApiError}
use io_tables.Database.{Check, PaymentRow, PaymentVoidIdempotency, is_recorded}
use io_tables.Session.{◌>>=◌, ◌>>◌, Session, err}
use io_tables.Session.Ends.{Ends, Untouched, Ends-pure, Ends-Untouched, ends_rules}
use io_tables.Settlement.Payments.Queries.{
  payment_row, is_correction, payment_void_correction_id, payment_void_result,
}
use io_tables.Settlement.Payments.Void.{
  VoidPayment, new_correction, void_writes, replay_void, void_new, void_payment,
}
use io_tables.Settlement.Payments.VoidLaws.{voided_db, void_writes_lem, payment_row-voided}

latest-cons {ℓ} : {A : Type ℓ} (key : A → ℕ) (x : A) (xs : List A) → latest key (x ∷ xs) ≢ none
latest-cons key x xs h = ground arith

latest-select-insert {ℓ} :
    {A : Type ℓ} (key : A → ℕ) (q : A → Bool) (x : A) (xs : List A)
    → q x ≡ true
    → latest key (select q (insert x xs)) ≢ none
latest-select-insert key q x [] hx h = ground arith
latest-select-insert key q x (y ∷ xs) hx h =
    ground (arith, latest-cons key y (select q (insert x xs)), latest-select-insert key q x xs)

correction-voided_some :
    (tenant_id user_id : ℕ) (r : VoidPayment) (p : PaymentRow) (s : Session)
    → payment_void_correction_id tenant_id p.check_id r.payment_id
        (voided_db tenant_id user_id r p s)
      ≢ none
unfolding payment_void_correction_id
correction-voided_some tenant_id user_id r p s h = ground (
  arith,
  latest-select-insert (λ c. c.created_at) (is_correction tenant_id p.check_id r.payment_id)
      (new_correction tenant_id user_id r p.check_id (s.clock s.read) (s.uuids (suc s.drawn)))
      s.db.cashier_corrections (ground (arith, eq_refl "payment")),
)

live_of_guard :
    (p : PaymentRow)
    → not (is_recorded p.status) || not (is_none p.voided_at) ≡ false
    → is_recorded p.status ≡ true
live_of_guard p h = ground arith

-- Behind the writes only the answer can raise, and it does not.
void_writes-Untouched :
    (actor : ActorContext) (tenant_id user_id : ℕ) (r : VoidPayment) (p : PaymentRow) (c : Check)
    (s : Session)
    → actor.tenant_id ≡ some tenant_id
    → payment_row tenant_id r.payment_id s.db ≡ some (p, c)
    → is_recorded p.status ≡ true
    → Ends
        (Untouched s.committed)
        ((void_writes tenant_id user_id r p >> payment_void_result actor r.payment_id false) s)
unfolding payment_void_result ◌>>=◌
void_writes-Untouched actor tenant_id user_id r p c s at_tenant found live =
    elim (Option-cases (
      payment_void_correction_id tenant_id p.check_id r.payment_id
        (voided_db tenant_id user_id r p s))) [
          | inl missing ↦ absurd (correction-voided_some tenant_id user_id r p s missing)
          | inr (k, e) ↦
              simp
                (
                  void_writes_lem tenant_id user_id r p s,
                  at_tenant,
                  payment_row-voided tenant_id user_id r p c s found live,
                  e,
                )
                (Ends-pure _ _ tt)
        ]

replay_void-Untouched :
    (actor : ActorContext) (r : VoidPayment) (k : PaymentVoidIdempotency) (s : Session)
    → Ends (Untouched s.committed) (replay_void actor r k s)
unfolding replay_void payment_void_result
replay_void-Untouched actor r k s = search ends_rules depth 20

void_new-Untouched :
    (actor : ActorContext) (tenant_id user_id : ℕ) (r : VoidPayment) (row : PaymentRow × Check)
    (s : Session)
    → actor.tenant_id ≡ some tenant_id
    → payment_row tenant_id r.payment_id s.db ≡ some row
    → Ends (Untouched s.committed) (void_new actor tenant_id user_id r row.0 s)
unfolding void_new
void_new-Untouched actor tenant_id user_id r (p, c) s at_tenant found =
    search (ends_rules, void_writes-Untouched actor tenant_id user_id r p c s, live_of_guard p)
      depth 20

void_payment-Untouched :
    (actor : ActorContext) (r : VoidPayment) (s : Session)
    → Ends (Untouched s.committed) (void_payment actor r s)
unfolding void_payment
void_payment-Untouched actor r s =
    search (ends_rules, void_new-Untouched, replay_void-Untouched) depth 30

-- A void that is refused, on any guard and also by a replay, leaves what is committed alone.
pub void_payment_refused :
    (actor : ActorContext) (r : VoidPayment) (s : Session) {e : ApiError}
    → (void_payment actor r s).0 ≡ err e
    → (void_payment actor r s).1.committed ≡ s.committed
void_payment_refused actor r s =
    Ends-Untouched (void_payment actor r s) (void_payment-Untouched actor r s)
