-- ===== src/Database/Settlement.antt =====
-- Rows of the tables of database/schema.py that hold payments, closures and the audit trail.
use io_tables.Common.{ℕ, String, List, Option}
use io_tables.Database.Status.{PaymentStatus, CorrectionType, IdempotencyStatus}

pub record PaymentRow : Type 0 where
  pub id : ℕ
  pub tenant_id : ℕ
  pub check_id : ℕ
  pub amount_minor : ℕ
  pub currency_code : String
  pub method : String
  pub status : PaymentStatus
  pub cashier_user_id : ℕ
  pub received_at : ℕ
  pub voided_at : Option ℕ
  pub voided_by_user_id : Option ℕ
  pub void_reason : Option String
  pub created_at : ℕ
  pub updated_at : ℕ

pub record PaymentIdempotency : Type 0 where
  pub id : ℕ
  pub tenant_id : ℕ
  pub check_id : ℕ
  pub idempotency_key : String
  pub request_hash : String
  pub payment_id : Option ℕ
  pub status : IdempotencyStatus
  pub created_at : ℕ
  pub completed_at : Option ℕ

pub record PaymentVoidIdempotency : Type 0 where
  pub id : ℕ
  pub tenant_id : ℕ
  pub payment_id : ℕ
  pub idempotency_key : String
  pub request_hash : String
  pub status : IdempotencyStatus
  pub created_at : ℕ
  pub completed_at : Option ℕ

-- `target_type` is 'payment' in every row that the program writes, and a text in the schema.
pub record CashierCorrection : Type 0 where
  pub id : ℕ
  pub tenant_id : ℕ
  pub check_id : ℕ
  pub type : CorrectionType
  pub target_type : String
  pub target_id : ℕ
  pub reason : String
  pub created_by_user_id : ℕ
  pub created_at : ℕ

pub record SessionClosure : Type 0 where
  pub id : ℕ
  pub tenant_id : ℕ
  pub table_session_id : ℕ
  pub check_id : ℕ
  pub cashier_user_id : ℕ
  pub reason : Option String
  pub closed_at : ℕ

-- The values of the JSON object in the column `metadata`; an id is written as text in the source.
pub data Json : Type 0 where
  uuid : ℕ → Json
  num : ℕ → Json
  text : String → Json

-- `target_id` is `str` of an id, and is kept as the id.
pub record AuditEvent : Type 0 where
  pub id : ℕ
  pub tenant_id : Option ℕ
  pub actor_user_id : Option ℕ
  pub action : String
  pub target_type : String
  pub target_id : ℕ
  pub reason : Option String
  pub metadata : List (String × Json)
  pub created_at : ℕ
