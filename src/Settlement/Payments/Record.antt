-- ===== src/Settlement/Payments/Record.antt =====
-- `record_payment` of modules/settlement/payments.py.
use io_tables.Common.{
  ℕ, ℤ, pos_part, is_nonpos, String, Bool, true, false, not, ◌||◌, none, some, [], ◌∷◌, update,
  insert, ltb, str_eq,
}
use io_tables.Actor.{ActorContext}
use io_tables.Errors.{
  not_authorized, not_found_or_hidden, validation_failed, check_closed, idempotency_conflict,
  overpayment_not_allowed,
}
use io_tables.Database.{
  Check, PaymentRow, PaymentIdempotency, AuditEvent, recorded, processing, completed, is_completed,
  is_open, uuid, num, text,
}
use io_tables.Session.{
  Exec, case_option, ◌>>=◌, ◌>>◌, pure, raise_if, or_raise, query, execute, commit, uuid4, utc_now,
}
use io_tables.Settlement.Billing.{require_cashier, bill_summary_for_check}
use io_tables.Settlement.Payments.Queries.{
  PaymentResult, check_row, is_key, idempotency_row, payment_result,
}

-- `method in {"cash", "card", "transfer"}`
abbrev pub is_method : String → Bool
is_method m = str_eq m "cash" || str_eq m "card" || str_eq m "transfer"

-- The arguments of `record_payment` behind the actor.
pub record RecordPayment : Type 0 where
  pub check_id : ℕ
  pub amount_minor : ℤ
  pub currency : String
  pub method : String
  pub idempotency_key : String
  pub request_hash : String

-- The row that is inserted into `payment_idempotency`.
abbrev pub new_key : ℕ → RecordPayment → ℕ → ℕ → PaymentIdempotency
new_key tenant_id r now key_id = record {
  id = key_id;
  tenant_id = tenant_id;
  check_id = r.check_id;
  idempotency_key = r.idempotency_key;
  request_hash = r.request_hash;
  payment_id = none;
  status = processing;
  created_at = now;
  completed_at = none;
}

-- The row that is inserted into `payments`.
abbrev pub new_payment : ℕ → ℕ → RecordPayment → ℕ → ℕ → PaymentRow
new_payment tenant_id user_id r now payment_id = record {
  id = payment_id;
  tenant_id = tenant_id;
  check_id = r.check_id;
  amount_minor = pos_part r.amount_minor;
  currency_code = r.currency;
  method = r.method;
  status = recorded;
  cashier_user_id = user_id;
  received_at = now;
  voided_at = none;
  voided_by_user_id = none;
  void_reason = none;
  created_at = now;
  updated_at = now;
}

-- The row that is inserted into `audit_events`.
abbrev pub recorded_event : ℕ → ℕ → RecordPayment → ℕ → ℕ → ℕ → AuditEvent
recorded_event tenant_id user_id r now payment_id event_id = record {
  id = event_id;
  tenant_id = some tenant_id;
  actor_user_id = some user_id;
  action = "payment.recorded";
  target_type = "payment";
  target_id = payment_id;
  reason = none;
  metadata =
      ("checkId", uuid r.check_id)
      ∷ ("amountMinor", num (pos_part r.amount_minor))
      ∷ ("currency", text r.currency)
      ∷ ("method", text r.method)
      ∷ [];
  created_at = now;
}

-- The statements of `record_payment` behind its guards, up to the commit.
unfoldable pub record_writes : ℕ → ℕ → RecordPayment → Exec ℕ
record_writes tenant_id user_id r = do
  now ← utc_now
  key_id ← uuid4
  execute (λ db. record db {
    payment_idempotency = insert (new_key tenant_id r now key_id) db.payment_idempotency;
  })
  payment_id ← uuid4
  execute (λ db. record db {
    payments = insert (new_payment tenant_id user_id r now payment_id) db.payments;
  })
  execute (λ db. record db {
    payment_idempotency =
        update (is_key tenant_id r.check_id r.idempotency_key)
          (λ k. record k {
            payment_id = some payment_id;
            status = completed;
            completed_at = some now;
          })
          db.payment_idempotency;
  })
  event_id ← uuid4
  execute (λ db. record db {
    audit_events =
        insert (recorded_event tenant_id user_id r now payment_id event_id) db.audit_events;
  })
  commit
  pure payment_id

-- A key that was used before: the recorded result, or a conflict.
unfoldable pub replay_payment :
    ActorContext → RecordPayment → PaymentIdempotency → Exec PaymentResult
replay_payment actor r k = do
  raise_if (not (str_eq k.request_hash r.request_hash)) idempotency_conflict
  raise_if (not (is_completed k.status)) idempotency_conflict
  payment_id ← or_raise k.payment_id idempotency_conflict
  payment_result actor payment_id true

-- A key that is new.
unfoldable pub record_new : ActorContext → ℕ → ℕ → RecordPayment → Check → Exec PaymentResult
record_new actor tenant_id user_id r check = do
  summary ← query (bill_summary_for_check tenant_id r.check_id check.table_session_id)
  raise_if (not (str_eq r.currency summary.currency)) validation_failed
  raise_if (ltb summary.remaining_minor (pos_part r.amount_minor)) overpayment_not_allowed
  payment_id ← record_writes tenant_id user_id r
  payment_result actor payment_id false

unfoldable pub record_payment : ActorContext → RecordPayment → Exec PaymentResult
unfolding require_cashier
record_payment actor r = do
  require_cashier actor
  tenant_id ← or_raise actor.tenant_id not_authorized
  user_id ← or_raise actor.user_id not_authorized
  raise_if (is_nonpos r.amount_minor) validation_failed
  raise_if (not (is_method r.method)) validation_failed
  found ← query (check_row tenant_id r.check_id)
  check ← or_raise found not_found_or_hidden
  raise_if (not (is_open check.status)) check_closed
  existing ← query (idempotency_row tenant_id r.check_id r.idempotency_key)
  case_option existing (record_new actor tenant_id user_id r check) (replay_payment actor r)
