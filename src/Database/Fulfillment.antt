-- ===== src/Database/Fulfillment.antt =====
-- Rows of the tables of database/schema.py that follow an ordered item through the kitchen and to
-- its table.
use io_tables.Common.{ℕ, String, List, Option}
use io_tables.Database.Status.{PreparationStatus, DeliveryStatus, IdempotencyStatus}

pub record PreparationItem : Type 0 where
  pub id : ℕ
  pub tenant_id : ℕ
  pub order_item_id : ℕ
  pub station_id : ℕ
  pub status : PreparationStatus
  pub cannot_prepare_reason : Option String
  pub updated_by_user_id : Option ℕ
  pub updated_at : ℕ
  pub created_at : ℕ

pub record PreparationTransition : Type 0 where
  pub id : ℕ
  pub tenant_id : ℕ
  pub preparation_item_id : ℕ
  pub actor_user_id : Option ℕ
  pub from_status : Option PreparationStatus
  pub to_status : PreparationStatus
  pub reason : Option String
  pub created_at : ℕ

pub record DeliveryState : Type 0 where
  pub id : ℕ
  pub tenant_id : ℕ
  pub order_item_id : ℕ
  pub status : DeliveryStatus
  pub updated_by_user_id : ℕ
  pub updated_at : ℕ
  pub created_at : ℕ

pub record DeliveryTransition : Type 0 where
  pub id : ℕ
  pub tenant_id : ℕ
  pub delivery_state_id : ℕ
  pub order_item_id : ℕ
  pub actor_user_id : ℕ
  pub from_status : Option DeliveryStatus
  pub to_status : DeliveryStatus
  pub created_at : ℕ

pub record DeliveryBulkIdempotency : Type 0 where
  pub id : ℕ
  pub tenant_id : ℕ
  pub actor_user_id : ℕ
  pub table_id : ℕ
  pub idempotency_key : String
  pub request_hash : String
  pub delivered_order_item_ids : Option (List ℕ)
  pub status : IdempotencyStatus
  pub created_at : ℕ
  pub completed_at : Option ℕ
