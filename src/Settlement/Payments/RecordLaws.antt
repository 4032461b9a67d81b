-- ===== src/Settlement/Payments/RecordLaws.antt =====
-- What `record_payment` does to the database, and that it fails without a trace.
use io_tables.Common.{
  ℕ, suc, ◌+◌, ◌-◌, ◌≤◌, ◌≡◌, refl, pos_part, true, false, ◌&&◌, none, some, find, insert, update,
  ltb-false, str_eq, arith, ◌==◌, sum-insert, find-join-insert, find-join-none,
}
use io_tables.Actor.{ActorContext}
use io_tables.Database.{Db, Check, completed}
use io_tables.Session.{◌>>=◌, Session, ok}
use io_tables.Settlement.Billing.{
  is_paid_on, paid_minor, total_minor, bill_summary_for_check, currency,
}
use io_tables.Settlement.Payments.Queries.{
  check_row, payment_row, is_payment, is_key, payment_result, to_payment,
}
use io_tables.Settlement.Payments.Record.{
  RecordPayment, new_key, new_payment, recorded_event, record_writes, record_new,
}

-- The database behind the writes of a new payment.
abbrev pub recorded_db : ℕ → ℕ → RecordPayment → Session → Db
recorded_db tenant_id user_id r s = record s.db {
  payment_idempotency =
      update (is_key tenant_id r.check_id r.idempotency_key)
        (λ k. record k {
          payment_id = some (s.uuids (suc s.drawn));
          status = completed;
          completed_at = some (s.clock s.read);
        })
        (insert (new_key tenant_id r (s.clock s.read) (s.uuids s.drawn)) s.db.payment_idempotency);
  payments =
      insert (new_payment tenant_id user_id r (s.clock s.read) (s.uuids (suc s.drawn)))
        s.db.payments;
  audit_events =
      insert
        (recorded_event tenant_id user_id r (s.clock s.read) (s.uuids (suc s.drawn))
          (s.uuids (suc (suc s.drawn))))
        s.db.audit_events;
}

-- The session behind them: everything is committed.
abbrev pub recorded_session : ℕ → ℕ → RecordPayment → Session → Session
recorded_session tenant_id user_id r s = record {
  db = recorded_db tenant_id user_id r s;
  committed = recorded_db tenant_id user_id r s;
  uuids = s.uuids;
  drawn = suc (suc (suc s.drawn));
  clock = s.clock;
  read = suc s.read;
}

pub record_writes_lem :
    (tenant_id user_id : ℕ) (r : RecordPayment) (s : Session)
    → record_writes tenant_id user_id r s
      ≡ (ok (s.uuids (suc s.drawn)), recorded_session tenant_id user_id r s)
unfolding record_writes ◌>>=◌
record_writes_lem tenant_id user_id r s = refl

module _ (tenant_id user_id : ℕ) (r : RecordPayment) (s : Session) where
  -- The paid sum of the check grows by the amount.
  pub paid_minor-recorded :
      paid_minor tenant_id r.check_id (recorded_db tenant_id user_id r s)
      ≡ paid_minor tenant_id r.check_id s.db + pos_part r.amount_minor
  unfolding paid_minor
  paid_minor-recorded = ground (
    arith,
    sum-insert (is_paid_on tenant_id r.check_id) (λ p. p.amount_minor)
        (new_payment tenant_id user_id r (s.clock s.read) (s.uuids (suc s.drawn))) s.db.payments,
  )

  -- A payment that the database does not hold is found beside its check once it is recorded.
  pub payment_row-recorded :
      {check : Check}
      → check_row tenant_id r.check_id s.db ≡ some check
      → find (is_payment tenant_id (s.uuids (suc s.drawn))) s.db.payments ≡ none
      → payment_row tenant_id (s.uuids (suc s.drawn)) (recorded_db tenant_id user_id r s)
        ≡ some (new_payment tenant_id user_id r (s.clock s.read) (s.uuids (suc s.drawn)), check)
  unfolding payment_row check_row
  payment_row-recorded h fresh = ground (
    arith,
    find-join-insert (is_payment tenant_id (s.uuids (suc s.drawn)))
        (λ p c. (c.tenant_id == p.tenant_id) && (c.id == p.check_id))
        (new_payment tenant_id user_id r (s.clock s.read) (s.uuids (suc s.drawn))) s.db.payments
        s.db.checks,
    find-join-none (is_payment tenant_id (s.uuids (suc s.drawn)))
        (λ p c. (c.tenant_id == p.tenant_id) && (c.id == p.check_id)) s.db.payments s.db.checks,
  )

module _ (actor : ActorContext) (tenant_id user_id : ℕ) (r : RecordPayment) (check : Check)
    (s : Session) where
  -- Behind the guards: within the balance the payment is recorded and the new bill returned.
  pub record_new_accepts :
      actor.tenant_id ≡ some tenant_id
      → check_row tenant_id r.check_id s.db ≡ some check
      → find (is_payment tenant_id (s.uuids (suc s.drawn))) s.db.payments ≡ none
      → str_eq r.currency (currency tenant_id check.table_session_id s.db) ≡ true
      → pos_part r.amount_minor
        ≤ total_minor tenant_id check.table_session_id s.db - paid_minor tenant_id r.check_id s.db
      → record_new actor tenant_id user_id r check s ≡ (
        ok (record {
          payment =
              to_payment
                (new_payment tenant_id user_id r (s.clock s.read) (s.uuids (suc s.drawn)), check);
          paid_minor = paid_minor tenant_id r.check_id s.db + pos_part r.amount_minor;
          remaining_minor =
              total_minor tenant_id check.table_session_id s.db
              - (paid_minor tenant_id r.check_id s.db + pos_part r.amount_minor);
          duplicate = false;
        }),
        recorded_session tenant_id user_id r s,
      )
  unfolding record_new payment_result bill_summary_for_check total_minor ◌>>=◌
  record_new_accepts at_tenant at_check fresh same covered = rw (
    same,
    ltb-false _ _ covered,
    record_writes_lem tenant_id user_id r s,
    at_tenant,
    payment_row-recorded tenant_id user_id r s at_check fresh,
    paid_minor-recorded tenant_id user_id r s,
  )
