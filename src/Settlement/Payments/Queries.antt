-- ===== src/Settlement/Payments/Queries.antt =====
-- The results and queries of modules/settlement/payments.py.
use io_tables.Common.{
  ℕ, String, Bool, ◌&&◌, Option, none, some, List, map, find, select, join, latest, str_eq, ◌==◌,
}
use io_tables.Actor.{ActorContext}
use io_tables.Errors.{not_authorized, not_found_or_hidden}
use io_tables.Database.{
  Db, Check, PaymentRow, PaymentStatus, PaymentIdempotency, PaymentVoidIdempotency,
  CashierCorrection, is_payment_void,
}
use io_tables.Session.{Exec, ◌>>=◌, ◌>>◌, pure, or_raise, query}
use io_tables.Settlement.Billing.{require_cashier, bill_summary_for_check}

pub record Payment : Type 0 where
  pub payment_id : ℕ
  pub check_id : ℕ
  pub table_session_id : ℕ
  pub amount_minor : ℕ
  pub currency : String
  pub method : String
  pub status : PaymentStatus
  pub recorded_at : ℕ
  pub voided_at : Option ℕ

pub record PaymentResult : Type 0 where
  pub payment : Payment
  pub paid_minor : ℕ
  pub remaining_minor : ℕ
  pub duplicate : Bool

pub record PaymentVoidResult : Type 0 where
  pub payment : Payment
  pub paid_minor : ℕ
  pub remaining_minor : ℕ
  pub correction_id : ℕ
  pub duplicate : Bool

-- The rows of `payment_select`: a payment beside its check.
abbrev pub payment_rows : Db → List (PaymentRow × Check)
payment_rows db =
    join (λ p c. (c.tenant_id == p.tenant_id) && (c.id == p.check_id)) db.payments db.checks

unfoldable pub to_payment : PaymentRow × Check → Payment
to_payment (p, c) = record {
  payment_id = p.id;
  check_id = p.check_id;
  table_session_id = c.table_session_id;
  amount_minor = p.amount_minor;
  currency = p.currency_code;
  method = p.method;
  status = p.status;
  recorded_at = p.received_at;
  voided_at = p.voided_at;
}

-- `_check_row`
unfoldable pub check_row : ℕ → ℕ → Db → Option Check
check_row tenant_id check_id db =
    find (λ c. (c.tenant_id == tenant_id) && (c.id == check_id)) db.checks

abbrev pub is_payment : ℕ → ℕ → PaymentRow → Bool
is_payment tenant_id payment_id p = (p.tenant_id == tenant_id) && (p.id == payment_id)

-- `_payment_row`
unfoldable pub payment_row : ℕ → ℕ → Db → Option (PaymentRow × Check)
payment_row tenant_id payment_id db =
    find (λ r. is_payment tenant_id payment_id r.0) (payment_rows db)

abbrev pub is_key : ℕ → ℕ → String → PaymentIdempotency → Bool
is_key tenant_id check_id key k =
    (k.tenant_id == tenant_id) && (k.check_id == check_id) && str_eq k.idempotency_key key

-- `_idempotency_row`
unfoldable pub idempotency_row : ℕ → ℕ → String → Db → Option PaymentIdempotency
idempotency_row tenant_id check_id key db =
    find (is_key tenant_id check_id key) db.payment_idempotency

abbrev pub is_void_key : ℕ → ℕ → String → PaymentVoidIdempotency → Bool
is_void_key tenant_id payment_id key k =
    (k.tenant_id == tenant_id) && (k.payment_id == payment_id) && str_eq k.idempotency_key key

-- `_void_idempotency_row`
unfoldable pub void_idempotency_row : ℕ → ℕ → String → Db → Option PaymentVoidIdempotency
void_idempotency_row tenant_id payment_id key db =
    find (is_void_key tenant_id payment_id key) db.payment_void_idempotency

abbrev pub is_correction : ℕ → ℕ → ℕ → CashierCorrection → Bool
is_correction tenant_id check_id payment_id c =
    (c.tenant_id == tenant_id)
    && (c.check_id == check_id)
    && is_payment_void c.type
    && str_eq c.target_type "payment"
    && (c.target_id == payment_id)

abbrev pub correction_id : Option CashierCorrection → Option ℕ
correction_id none = none
correction_id (some c) = some c.id

-- `_payment_void_correction_id`
unfoldable pub payment_void_correction_id : ℕ → ℕ → ℕ → Db → Option ℕ
payment_void_correction_id tenant_id check_id payment_id db = correction_id (
    latest (λ c. c.created_at)
      (select (is_correction tenant_id check_id payment_id) db.cashier_corrections))

-- `_payment_result`
unfoldable pub payment_result : ActorContext → ℕ → Bool → Exec PaymentResult
payment_result actor payment_id duplicate = do
  tenant_id ← or_raise actor.tenant_id not_authorized
  found ← query (payment_row tenant_id payment_id)
  row ← or_raise found not_found_or_hidden
  summary ← query (bill_summary_for_check tenant_id row.0.check_id row.1.table_session_id)
  pure (record {
    payment = to_payment row;
    paid_minor = summary.paid_minor;
    remaining_minor = summary.remaining_minor;
    duplicate = duplicate;
  })

-- `_payment_void_result`
unfoldable pub payment_void_result : ActorContext → ℕ → Bool → Exec PaymentVoidResult
payment_void_result actor payment_id duplicate = do
  tenant_id ← or_raise actor.tenant_id not_authorized
  found ← query (payment_row tenant_id payment_id)
  row ← or_raise found not_found_or_hidden
  corrected ← query (payment_void_correction_id tenant_id row.0.check_id payment_id)
  correction ← or_raise corrected not_found_or_hidden
  summary ← query (bill_summary_for_check tenant_id row.0.check_id row.1.table_session_id)
  pure (record {
    payment = to_payment row;
    paid_minor = summary.paid_minor;
    remaining_minor = summary.remaining_minor;
    correction_id = correction;
    duplicate = duplicate;
  })

unfoldable pub list_payments : ActorContext → ℕ → Exec (List Payment)
unfolding require_cashier
list_payments actor check_id = do
  require_cashier actor
  tenant_id ← or_raise actor.tenant_id not_authorized
  rows ← query (λ db.
      select (λ r. (r.0.tenant_id == tenant_id) && (r.0.check_id == check_id)) (payment_rows db))
  pure (map to_payment rows)
