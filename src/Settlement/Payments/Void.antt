-- ===== src/Settlement/Payments/Void.antt =====
-- `void_payment` of modules/settlement/payments.py.
use io_tables.Common.{
  ℕ, String, Bool, true, false, not, ◌&&◌, ◌||◌, none, some, [], ◌∷◌, update, insert, strip,
  is_empty, is_none, str_eq, ◌==◌,
}
use io_tables.Actor.{ActorContext}
use io_tables.Errors.{
  not_authorized, not_found_or_hidden, reason_required, check_closed, idempotency_conflict,
  payment_void_not_allowed,
}
use io_tables.Database.{
  PaymentRow, PaymentVoidIdempotency, CashierCorrection, AuditEvent, voided, payment_void,
  processing, completed, is_recorded, is_completed, is_open, uuid, num,
}
use io_tables.Session.{
  Exec, case_option, ◌>>=◌, ◌>>◌, raise_if, or_raise, query, execute, commit, uuid4, utc_now,
}
use io_tables.Settlement.Billing.{require_cashier}
use io_tables.Settlement.Payments.Queries.{
  PaymentVoidResult, check_row, payment_row, is_void_key, void_idempotency_row, payment_void_result,
}

-- The arguments of `void_payment` behind the actor.
pub record VoidPayment : Type 0 where
  pub payment_id : ℕ
  pub reason : String
  pub idempotency_key : String
  pub request_hash : String

-- The row that is inserted into `payment_void_idempotency`.
abbrev pub new_void_key : ℕ → VoidPayment → ℕ → ℕ → PaymentVoidIdempotency
new_void_key tenant_id r now key_id = record {
  id = key_id;
  tenant_id = tenant_id;
  payment_id = r.payment_id;
  idempotency_key = r.idempotency_key;
  request_hash = r.request_hash;
  status = processing;
  created_at = now;
  completed_at = none;
}

-- The row that is inserted into `cashier_corrections`.
abbrev pub new_correction : ℕ → ℕ → VoidPayment → ℕ → ℕ → ℕ → CashierCorrection
new_correction tenant_id user_id r check_id now correction_id = record {
  id = correction_id;
  tenant_id = tenant_id;
  check_id = check_id;
  type = payment_void;
  target_type = "payment";
  target_id = r.payment_id;
  reason = strip r.reason;
  created_by_user_id = user_id;
  created_at = now;
}

-- The row that is inserted into `audit_events`.
abbrev pub voided_event : ℕ → ℕ → VoidPayment → PaymentRow → ℕ → ℕ → ℕ → AuditEvent
voided_event tenant_id user_id r payment now correction_id event_id = record {
  id = event_id;
  tenant_id = some tenant_id;
  actor_user_id = some user_id;
  action = "payment.voided";
  target_type = "payment";
  target_id = r.payment_id;
  reason = some (strip r.reason);
  metadata =
      ("checkId", uuid payment.check_id)
      ∷ ("correctionId", uuid correction_id)
      ∷ ("amountMinor", num payment.amount_minor)
      ∷ [];
  created_at = now;
}

-- `payments.c.status == "recorded"` is part of the update's condition.
abbrev pub is_voidable : ℕ → ℕ → PaymentRow → Bool
is_voidable tenant_id payment_id p =
    (p.tenant_id == tenant_id) && (p.id == payment_id) && is_recorded p.status

abbrev pub void_row : ℕ → String → ℕ → PaymentRow → PaymentRow
void_row user_id reason now p = record p {
  status = voided;
  voided_at = some now;
  voided_by_user_id = some user_id;
  void_reason = some reason;
  updated_at = now;
}

-- The statements of `void_payment` behind its guards, up to the commit.
unfoldable pub void_writes : ℕ → ℕ → VoidPayment → PaymentRow → Exec (Unit {0})
void_writes tenant_id user_id r payment = do
  now ← utc_now
  key_id ← uuid4
  execute (λ db. record db {
    payment_void_idempotency =
        insert (new_void_key tenant_id r now key_id) db.payment_void_idempotency;
  })
  execute (λ db. record db {
    payments =
        update (is_voidable tenant_id r.payment_id) (void_row user_id (strip r.reason) now)
          db.payments;
  })
  correction_id ← uuid4
  execute (λ db. record db {
    cashier_corrections =
        insert (new_correction tenant_id user_id r payment.check_id now correction_id)
          db.cashier_corrections;
  })
  execute (λ db. record db {
    payment_void_idempotency =
        update (is_void_key tenant_id r.payment_id r.idempotency_key)
          (λ k. record k { status = completed; completed_at = some now })
          db.payment_void_idempotency;
  })
  event_id ← uuid4
  execute (λ db. record db {
    audit_events =
        insert (voided_event tenant_id user_id r payment now correction_id event_id)
          db.audit_events;
  })
  commit

-- A key that was used before: the recorded result, or a conflict.
unfoldable pub replay_void :
    ActorContext → VoidPayment → PaymentVoidIdempotency → Exec PaymentVoidResult
replay_void actor r k = do
  raise_if (not (str_eq k.request_hash r.request_hash)) idempotency_conflict
  raise_if (not (is_completed k.status)) idempotency_conflict
  payment_void_result actor r.payment_id true

-- A key that is new.
unfoldable pub void_new : ActorContext → ℕ → ℕ → VoidPayment → PaymentRow → Exec PaymentVoidResult
void_new actor tenant_id user_id r payment = do
  raise_if (not (is_recorded payment.status) || not (is_none payment.voided_at))
      payment_void_not_allowed
  void_writes tenant_id user_id r payment
  payment_void_result actor r.payment_id false

unfoldable pub void_payment : ActorContext → VoidPayment → Exec PaymentVoidResult
unfolding require_cashier
void_payment actor r = do
  require_cashier actor
  tenant_id ← or_raise actor.tenant_id not_authorized
  user_id ← or_raise actor.user_id not_authorized
  raise_if (is_empty (strip r.reason)) reason_required
  found ← query (payment_row tenant_id r.payment_id)
  payment ← or_raise found not_found_or_hidden
  found_check ← query (check_row tenant_id payment.0.check_id)
  check ← or_raise found_check not_found_or_hidden
  raise_if (not (is_open check.status)) check_closed
  existing ← query (void_idempotency_row tenant_id r.payment_id r.idempotency_key)
  case_option existing (void_new actor tenant_id user_id r payment.0) (replay_void actor r)
