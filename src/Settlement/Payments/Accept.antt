-- ===== src/Settlement/Payments/Accept.antt =====
-- A payment that passes the guards of `record_payment`: what it does, and what a retry does.
use io_tables.Common.{
  ℕ, suc, ◌+◌, ◌-◌, ◌≤◌, ◌≡◌, refl, pos_part, is_nonpos, true, false, none, some, find, str_eq,
  eq_refl, arith, find-append, find-update, insert, Bool, [], ◌∷◌,
}
use io_tables.Actor.{ActorContext, has_role, cashier}
use io_tables.Database.{Check, PaymentIdempotency, is_open, completed}
use io_tables.Session.{◌>>=◌, case_option, Session, ok}
use io_tables.Settlement.Billing.{paid_minor, total_minor, currency, bill_summary_for_check}
use io_tables.Settlement.Payments.Queries.{
  PaymentResult, check_row, is_payment, is_key, idempotency_row, payment_result, to_payment,
}
use io_tables.Settlement.Payments.Record.{
  RecordPayment, is_method, new_key, new_payment, replay_payment, record_payment,
}
use io_tables.Settlement.Payments.RecordLaws.{
  recorded_db, recorded_session, paid_minor-recorded, payment_row-recorded, record_new_accepts,
}

-- The key of a recorded payment, as it is stored behind the writes.
abbrev pub used_key : ℕ → RecordPayment → Session → PaymentIdempotency
used_key tenant_id r s = record (new_key tenant_id r (s.clock s.read) (s.uuids s.drawn)) {
  payment_id = some (s.uuids (suc s.drawn));
  status = completed;
  completed_at = some (s.clock s.read);
}

pub idempotency_row-recorded :
    (tenant_id user_id : ℕ) (r : RecordPayment) (s : Session)
    → idempotency_row tenant_id r.check_id r.idempotency_key s.db ≡ none
    → idempotency_row tenant_id r.check_id r.idempotency_key (recorded_db tenant_id user_id r s)
      ≡ some (used_key tenant_id r s)
unfolding idempotency_row
idempotency_row-recorded tenant_id user_id r s new = ground (
  arith,
  eq_refl r.idempotency_key,
  find-append (is_key tenant_id r.check_id r.idempotency_key) s.db.payment_idempotency
      (new_key tenant_id r (s.clock s.read) (s.uuids s.drawn) ∷ []),
  find-update (is_key tenant_id r.check_id r.idempotency_key)
      (is_key tenant_id r.check_id r.idempotency_key)
      (λ k. record k {
        payment_id = some (s.uuids (suc s.drawn));
        status = completed;
        completed_at = some (s.clock s.read);
      })
      (λ k. refl)
      (insert (new_key tenant_id r (s.clock s.read) (s.uuids s.drawn)) s.db.payment_idempotency),
)

-- The answer to an accepted payment.
abbrev pub answer : ℕ → ℕ → RecordPayment → Check → Session → Bool → PaymentResult
answer tenant_id user_id r check s duplicate = record {
  payment =
      to_payment (new_payment tenant_id user_id r (s.clock s.read) (s.uuids (suc s.drawn)), check);
  paid_minor = paid_minor tenant_id r.check_id s.db + pos_part r.amount_minor;
  remaining_minor =
      total_minor tenant_id check.table_session_id s.db
      - (paid_minor tenant_id r.check_id s.db + pos_part r.amount_minor);
  duplicate = duplicate;
}

module _ (actor : ActorContext) (tenant_id user_id : ℕ) (r : RecordPayment) (check : Check)
    (s : Session) (role : has_role cashier actor ≡ true)
    (at_tenant : actor.tenant_id ≡ some tenant_id) (at_user : actor.user_id ≡ some user_id)
    (positive : is_nonpos r.amount_minor ≡ false) (method : is_method r.method ≡ true)
    (at_check : check_row tenant_id r.check_id s.db ≡ some check)
    (opened : is_open check.status ≡ true)
    (new : idempotency_row tenant_id r.check_id r.idempotency_key s.db ≡ none)
    (fresh : find (is_payment tenant_id (s.uuids (suc s.drawn))) s.db.payments ≡ none)
    (same : str_eq r.currency (currency tenant_id check.table_session_id s.db) ≡ true)
    (covered : pos_part r.amount_minor
      ≤ total_minor tenant_id check.table_session_id s.db
        - paid_minor tenant_id r.check_id s.db) where
  -- A cashier's payment of a positive amount by a known method on an open check, under a new key,
  -- in the bill's currency, within the remaining balance and under an unused payment id, is
  -- recorded and committed: the answer shows the payment, the paid sum grown by the amount and the
  -- balance that is left, and is no duplicate.
  pub record_payment_accepts :
      record_payment actor r s
      ≡ (ok (answer tenant_id user_id r check s false), recorded_session tenant_id user_id r s)
  unfolding record_payment case_option ◌>>=◌
  record_payment_accepts =
      simp (role, at_tenant, at_user, positive, method, at_check, opened, new)
        (record_new_accepts actor tenant_id user_id r check s at_tenant at_check fresh same covered)

  -- The same request once more, behind an accepted payment, gives the same answer, marked as a
  -- duplicate, and changes nothing.
  pub record_payment_replays :
      record_payment actor r (recorded_session tenant_id user_id r s)
      ≡ (ok (answer tenant_id user_id r check s true), recorded_session tenant_id user_id r s)
  unfolding record_payment replay_payment payment_result bill_summary_for_check total_minor
      case_option ◌>>=◌ check_row
  record_payment_replays = simp (
    role,
    at_tenant,
    at_user,
    positive,
    method,
    at_check,
    opened,
    idempotency_row-recorded tenant_id user_id r s new,
    eq_refl,
    payment_row-recorded tenant_id user_id r s at_check fresh,
    paid_minor-recorded tenant_id user_id r s,
  )
