-- ===== src/Database/Ordering.antt =====
-- Rows of the tables of database/schema.py that hold customer sessions, carts and orders.
use io_tables.Common.{ℕ, String, List, Option}
use io_tables.Database.Status.{CartStatus, IdempotencyStatus}

pub record CustomerOrderingSession : Type 0 where
  pub id : ℕ
  pub tenant_id : ℕ
  pub table_id : ℕ
  pub table_session_id : Option ℕ
  pub cookie_token_hash : String
  pub presence_valid_until : ℕ
  pub expires_at : ℕ
  pub last_seen_at : ℕ
  pub created_at : ℕ
  pub updated_at : ℕ

pub record CustomerCartRow : Type 0 where
  pub id : ℕ
  pub tenant_id : ℕ
  pub customer_ordering_session_id : ℕ
  pub status : CartStatus
  pub created_at : ℕ
  pub updated_at : ℕ

pub record CustomerCartItemRow : Type 0 where
  pub id : ℕ
  pub tenant_id : ℕ
  pub cart_id : ℕ
  pub client_cart_item_id : String
  pub product_service_id : ℕ
  pub product_variant_id : ℕ
  pub quantity : ℕ
  pub selected_modifiers : List ℕ
  pub note : Option String
  pub estimated_price_minor : ℕ
  pub created_at : ℕ
  pub updated_at : ℕ

-- The columns `status` ('submitted') and `order_channel` ('dine_in_qr') have one value each.
pub record Order : Type 0 where
  pub id : ℕ
  pub tenant_id : ℕ
  pub customer_ordering_session_id : ℕ
  pub table_session_id : ℕ
  pub submitted_at : ℕ
  pub created_at : ℕ

pub record OrderItem : Type 0 where
  pub id : ℕ
  pub tenant_id : ℕ
  pub order_id : ℕ
  pub product_service_id : ℕ
  pub product_variant_id : ℕ
  pub station_id : ℕ
  pub name_snapshot : String
  pub variant_name_snapshot : String
  pub unit_price_minor : ℕ
  pub currency_code : String
  pub modifier_snapshot : List ℕ
  pub quantity : ℕ
  pub note : Option String
  pub voided_at : Option ℕ
  pub voided_by_user_id : Option ℕ
  pub void_reason : Option String
  pub created_at : ℕ

pub record OrderSubmitIdempotency : Type 0 where
  pub id : ℕ
  pub tenant_id : ℕ
  pub customer_ordering_session_id : ℕ
  pub idempotency_key : String
  pub request_hash : String
  pub order_id : Option ℕ
  pub status : IdempotencyStatus
  pub created_at : ℕ
  pub completed_at : Option ℕ
