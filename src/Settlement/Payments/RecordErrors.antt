-- ===== src/Settlement/Payments/RecordErrors.antt =====
-- A payment that is refused leaves no trace.
use io_tables.Common.{
  ℕ, suc, ◌≡◌, ◌≢◌, false, ◌&&◌, none, some, arith, ◌==◌, find-join-insert, Option-cases, inl, inr,
}
use io_tables.Actor.{ActorContext}
use io_tables.Errors.{ApiError}
use io_tables.Database.{Db, Check, PaymentIdempotency}
use io_tables.Session.{◌>>=◌, Session, err}
use io_tables.Session.Ends.{Ends, Untouched, Ends-pure, Ends-Untouched, ends_rules}
use io_tables.Settlement.Payments.Queries.{check_row, payment_row, is_payment, payment_result}
use io_tables.Settlement.Payments.Record.{
  RecordPayment, new_payment, record_writes, replay_payment, record_new, record_payment,
}
use io_tables.Settlement.Payments.RecordLaws.{recorded_db, recorded_session, record_writes_lem}

-- A recorded payment is found, whatever the table held before.
payment_row-recorded_some :
    (tenant_id user_id : ℕ) (r : RecordPayment) (check : Check) (s : Session)
    → check_row tenant_id r.check_id s.db ≡ some check
    → payment_row tenant_id (s.uuids (suc s.drawn)) (recorded_db tenant_id user_id r s) ≢ none
unfolding payment_row check_row
payment_row-recorded_some tenant_id user_id r check s h missing = ground (
  arith,
  find-join-insert (is_payment tenant_id (s.uuids (suc s.drawn)))
      (λ p c. (c.tenant_id == p.tenant_id) && (c.id == p.check_id))
      (new_payment tenant_id user_id r (s.clock s.read) (s.uuids (suc s.drawn))) s.db.payments
      s.db.checks,
)

payment_result-Untouched :
    (actor : ActorContext) (tenant_id payment_id : ℕ) (db : Db) (s : Session)
    → actor.tenant_id ≡ some tenant_id
    → payment_row tenant_id payment_id s.db ≢ none
    → Ends (Untouched db) (payment_result actor payment_id false s)
unfolding payment_result ◌>>=◌
payment_result-Untouched actor tenant_id payment_id db s at_tenant there =
    elim (Option-cases (payment_row tenant_id payment_id s.db)) [
      | inl missing ↦ absurd (there missing)
      | inr (row, e) ↦ rw (at_tenant, e) (Ends-pure _ _ tt)
    ]

-- Behind the writes only the answer can raise.
record_writes-Untouched :
    (actor : ActorContext) (tenant_id user_id : ℕ) (r : RecordPayment) (check : Check) (s : Session)
    → actor.tenant_id ≡ some tenant_id
    → check_row tenant_id r.check_id s.db ≡ some check
    → Ends (Untouched s.committed) (
        (record_writes tenant_id user_id r >>= λ payment_id. payment_result actor payment_id false)
          s)
unfolding ◌>>=◌
record_writes-Untouched actor tenant_id user_id r check s at_tenant at_check =
    rw (record_writes_lem tenant_id user_id r s) (
      payment_result-Untouched actor tenant_id (s.uuids (suc s.drawn)) s.committed
        (recorded_session tenant_id user_id r s) at_tenant
        (payment_row-recorded_some tenant_id user_id r check s at_check))

replay_payment-Untouched :
    (actor : ActorContext) (r : RecordPayment) (k : PaymentIdempotency) (s : Session)
    → Ends (Untouched s.committed) (replay_payment actor r k s)
unfolding replay_payment payment_result
replay_payment-Untouched actor r k s = search ends_rules depth 20

record_new-Untouched :
    (actor : ActorContext) (tenant_id user_id : ℕ) (r : RecordPayment) (check : Check) (s : Session)
    → actor.tenant_id ≡ some tenant_id
    → check_row tenant_id r.check_id s.db ≡ some check
    → Ends (Untouched s.committed) (record_new actor tenant_id user_id r check s)
unfolding record_new
record_new-Untouched actor tenant_id user_id r check s at_tenant at_check =
    search (ends_rules, record_writes-Untouched actor tenant_id user_id r check s) depth 20

record_payment-Untouched :
    (actor : ActorContext) (r : RecordPayment) (s : Session)
    → Ends (Untouched s.committed) (record_payment actor r s)
unfolding record_payment
record_payment-Untouched actor r s =
    search (ends_rules, record_new-Untouched, replay_payment-Untouched) depth 30

-- A payment that is refused, on any guard and also by a replay, leaves what is committed alone.
pub record_payment_refused :
    (actor : ActorContext) (r : RecordPayment) (s : Session) {e : ApiError}
    → (record_payment actor r s).0 ≡ err e
    → (record_payment actor r s).1.committed ≡ s.committed
record_payment_refused actor r s =
    Ends-Untouched (record_payment actor r s) (record_payment-Untouched actor r s)
