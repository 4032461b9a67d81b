-- ===== src/Database/Venue.antt =====
-- Rows of the tables of database/schema.py that describe the venue and the sessions at its tables.
use io_tables.Common.{ℕ, String, Bool, Option}
use io_tables.Database.Status.{OpenStatus, GrantStatus, TableMode}

pub record TenantOperationalSettings : Type 0 where
  pub tenant_id : ℕ
  pub public_display_name : Option String
  pub service_delivery_tracking_enabled : Bool
  pub created_at : ℕ
  pub updated_at : ℕ

pub record Hall : Type 0 where
  pub id : ℕ
  pub tenant_id : ℕ
  pub name : String
  pub display_order : ℕ
  pub table_number_base : ℕ
  pub enabled : Bool
  pub created_at : ℕ
  pub updated_at : ℕ

pub record VenueTable : Type 0 where
  pub id : ℕ
  pub tenant_id : ℕ
  pub hall_id : ℕ
  pub table_number : ℕ
  pub name : String
  pub display_order : ℕ
  pub mode : TableMode
  pub enabled : Bool
  pub created_at : ℕ
  pub updated_at : ℕ

pub record StaffHallAssignment : Type 0 where
  pub id : ℕ
  pub tenant_id : ℕ
  pub user_id : ℕ
  pub hall_id : ℕ
  pub status : GrantStatus
  pub created_at : ℕ
  pub revoked_at : Option ℕ

pub record TableDisplayCredential : Type 0 where
  pub id : ℕ
  pub tenant_id : ℕ
  pub table_id : ℕ
  pub credential_hash : String
  pub status : GrantStatus
  pub provisioned_at : ℕ
  pub revoked_at : Option ℕ
  pub last_seen_at : Option ℕ

pub record TableAccessToken : Type 0 where
  pub id : ℕ
  pub tenant_id : ℕ
  pub table_id : ℕ
  pub token_hash : String
  pub expires_at : ℕ
  pub consumed_at : Option ℕ
  pub created_at : ℕ

pub record TableSession : Type 0 where
  pub id : ℕ
  pub tenant_id : ℕ
  pub table_id : ℕ
  pub status : OpenStatus
  pub opened_at : ℕ
  pub closed_at : Option ℕ
  pub created_at : ℕ
  pub updated_at : ℕ

pub record Check : Type 0 where
  pub id : ℕ
  pub tenant_id : ℕ
  pub table_session_id : ℕ
  pub status : OpenStatus
  pub opened_at : ℕ
  pub closed_at : Option ℕ
