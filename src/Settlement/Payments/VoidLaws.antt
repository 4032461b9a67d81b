-- ===== src/Settlement/Payments/VoidLaws.antt =====
-- What `void_payment` does to the database.
use io_tables.Common.{
  ℕ, suc, ◌+◌, ◌≤◌, ◌≡◌, refl, String, true, false, ◌&&◌, some, find, count, update, insert, strip,
  arith, ◌==◌, ==_refl, find_sound, find-sharper, count-sharper, find-join-update, find-join_sound,
  sum-update, sum_unique,
}
use io_tables.Database.{Db, Check, PaymentRow, is_recorded, completed}
use io_tables.Session.{◌>>=◌, Session, ok}
use io_tables.Settlement.Billing.{is_paid_on, paid_minor}
use io_tables.Settlement.Payments.Queries.{check_row, payment_row, is_payment, is_void_key}
use io_tables.Settlement.Payments.Void.{
  VoidPayment, new_void_key, new_correction, voided_event, is_voidable, void_row, void_writes,
}

-- The database behind the writes of a void.
abbrev pub voided_db : ℕ → ℕ → VoidPayment → PaymentRow → Session → Db
voided_db tenant_id user_id r p s = record s.db {
  payment_void_idempotency =
      update (is_void_key tenant_id r.payment_id r.idempotency_key)
        (λ k. record k { status = completed; completed_at = some (s.clock s.read) })
        (insert (new_void_key tenant_id r (s.clock s.read) (s.uuids s.drawn))
          s.db.payment_void_idempotency);
  payments =
      update (is_voidable tenant_id r.payment_id)
        (void_row user_id (strip r.reason) (s.clock s.read)) s.db.payments;
  cashier_corrections =
      insert
        (new_correction tenant_id user_id r p.check_id (s.clock s.read) (s.uuids (suc s.drawn)))
        s.db.cashier_corrections;
  audit_events =
      insert
        (voided_event tenant_id user_id r p (s.clock s.read) (s.uuids (suc s.drawn))
          (s.uuids (suc (suc s.drawn))))
        s.db.audit_events;
}

-- The session behind them: everything is committed.
abbrev pub voided_session : ℕ → ℕ → VoidPayment → PaymentRow → Session → Session
voided_session tenant_id user_id r p s = record {
  db = voided_db tenant_id user_id r p s;
  committed = voided_db tenant_id user_id r p s;
  uuids = s.uuids;
  drawn = suc (suc (suc s.drawn));
  clock = s.clock;
  read = suc s.read;
}

pub void_writes_lem :
    (tenant_id user_id : ℕ) (r : VoidPayment) (p : PaymentRow) (s : Session)
    → void_writes tenant_id user_id r p s ≡ (ok tt, voided_session tenant_id user_id r p s)
unfolding void_writes ◌>>=◌
void_writes_lem tenant_id user_id r p s = refl

tenant_of_payment :
    (tenant_id payment_id : ℕ) (p : PaymentRow)
    → is_payment tenant_id payment_id p ≡ true
    → p.tenant_id ≡ tenant_id
tenant_of_payment tenant_id payment_id p h = ground arith

is_voidable-is_payment :
    (tenant_id payment_id : ℕ) (p : PaymentRow)
    → is_voidable tenant_id payment_id p ≡ true
    → is_payment tenant_id payment_id p ≡ true
is_voidable-is_payment tenant_id payment_id p h = ground arith

-- A voided payment counts for no check.
not-is_paid_on :
    (tenant_id check_id user_id : ℕ) (reason : String) (now : ℕ) (p : PaymentRow)
    → is_paid_on tenant_id check_id (void_row user_id reason now p) ≡ false
not-is_paid_on tenant_id check_id user_id reason now p = ground arith

module _ (tenant_id user_id : ℕ) (r : VoidPayment) (p : PaymentRow) (c : Check) (s : Session) where
  -- The payment and its check, as they are found behind the writes.
  pub payment_row-voided :
      payment_row tenant_id r.payment_id s.db ≡ some (p, c)
      → is_recorded p.status ≡ true
      → payment_row tenant_id r.payment_id (voided_db tenant_id user_id r p s)
        ≡ some (void_row user_id (strip r.reason) (s.clock s.read) p, c)
  unfolding payment_row
  payment_row-voided found live = ground (
    arith,
    find-join_sound (is_payment tenant_id r.payment_id)
        (λ p c. (c.tenant_id == p.tenant_id) && (c.id == p.check_id)) s.db.payments s.db.checks p c,
    find-join-update (is_payment tenant_id r.payment_id)
        (λ p c. (c.tenant_id == p.tenant_id) && (c.id == p.check_id))
        (is_voidable tenant_id r.payment_id) (void_row user_id (strip r.reason) (s.clock s.read))
        (λ x. refl) (λ x. refl) s.db.payments s.db.checks,
  )

  -- The check of a payment that is found is the one that its id names.
  pub check_row-payment :
      payment_row tenant_id r.payment_id s.db ≡ some (p, c)
      → check_row tenant_id p.check_id s.db ≡ some c
  unfolding payment_row check_row
  check_row-payment found =
      let (here, match) =
        find-join_sound (is_payment tenant_id r.payment_id)
          (λ p c. (c.tenant_id == p.tenant_id) && (c.id == p.check_id)) s.db.payments s.db.checks p
          c found in
      rw (← tenant_of_payment tenant_id r.payment_id p here) match

  -- What is paid falls by the amount of the payment.
  pub paid_minor-voided :
      count (is_payment tenant_id r.payment_id) s.db.payments ≤ 1
      → find (is_payment tenant_id r.payment_id) s.db.payments ≡ some p
      → is_recorded p.status ≡ true
      → paid_minor tenant_id p.check_id (voided_db tenant_id user_id r p s) + p.amount_minor
        ≡ paid_minor tenant_id p.check_id s.db
  unfolding paid_minor
  paid_minor-voided one found live = ground (
    arith,
    ==_refl p.check_id,
    find_sound (is_payment tenant_id r.payment_id) s.db.payments p found,
    count-sharper (is_payment tenant_id r.payment_id) (is_voidable tenant_id r.payment_id)
        (is_voidable-is_payment tenant_id r.payment_id) s.db.payments,
    find-sharper (is_payment tenant_id r.payment_id) (is_voidable tenant_id r.payment_id)
        (is_voidable-is_payment tenant_id r.payment_id) s.db.payments p,
    sum_unique (is_paid_on tenant_id p.check_id) (is_voidable tenant_id r.payment_id)
        (λ p. p.amount_minor) s.db.payments p,
    sum-update (is_paid_on tenant_id p.check_id) (is_voidable tenant_id r.payment_id)
        (λ p. p.amount_minor) (void_row user_id (strip r.reason) (s.clock s.read))
        (not-is_paid_on tenant_id p.check_id user_id (strip r.reason) (s.clock s.read))
        s.db.payments,
  )
