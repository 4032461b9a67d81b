-- ===== src/Database/Access.antt =====
-- Rows of the tables of database/schema.py that hold tenants, accounts, sessions and one-time codes.
use io_tables.Common.{ℕ, String, Bool, Option}
use io_tables.Actor.{AppScope, StaffRole}
use io_tables.Database.Status.{
  TenantStatus, AccountStatus, GrantStatus, OtpPurpose, AttemptResult, MessageStatus,
}

pub record Tenant : Type 0 where
  pub id : ℕ
  pub name : String
  pub subdomain : String
  pub gsm_number : String
  pub sector : Option String
  pub capacity : Option ℕ
  pub address : Option String
  pub status : TenantStatus
  pub provisioning_error : Option String
  pub created_at : ℕ
  pub updated_at : ℕ

pub record User : Type 0 where
  pub id : ℕ
  pub tenant_id : Option ℕ
  pub username : String
  pub status : AccountStatus
  pub first_password_change_required : Bool
  pub created_at : ℕ
  pub updated_at : ℕ

pub record Credential : Type 0 where
  pub user_id : ℕ
  pub password_hash : String
  pub bootstrap_credential : Bool
  pub changed_at : ℕ

pub record LoginSession : Type 0 where
  pub id : ℕ
  pub tenant_id : Option ℕ
  pub user_id : ℕ
  pub app_scope : AppScope
  pub session_token_hash : String
  pub issued_at : ℕ
  pub expires_at : ℕ
  pub revoked_at : Option ℕ

pub record TotpFactor : Type 0 where
  pub user_id : ℕ
  pub secret_ciphertext : String
  pub enrolled_at : ℕ
  pub enabled : Bool

-- Its `role` is always 'platform_owner'.
pub record PlatformRoleAssignment : Type 0 where
  pub id : ℕ
  pub user_id : ℕ
  pub status : AccountStatus
  pub created_at : ℕ
  pub updated_at : ℕ

pub record StaffProfile : Type 0 where
  pub user_id : ℕ
  pub tenant_id : ℕ
  pub display_name : String
  pub status : AccountStatus
  pub created_at : ℕ
  pub updated_at : ℕ

pub record StaffRoleAssignment : Type 0 where
  pub id : ℕ
  pub tenant_id : ℕ
  pub user_id : ℕ
  pub role : StaffRole
  pub status : GrantStatus
  pub created_at : ℕ
  pub revoked_at : Option ℕ

pub record OtpChallenge : Type 0 where
  pub id : ℕ
  pub tenant_id : Option ℕ
  pub user_id : ℕ
  pub purpose : OtpPurpose
  pub target_gsm : String
  pub code_hash : String
  pub expires_at : ℕ
  pub verified_at : Option ℕ
  pub created_at : ℕ

pub record OtpAttempt : Type 0 where
  pub id : ℕ
  pub tenant_id : Option ℕ
  pub otp_challenge_id : ℕ
  pub attempt_no : ℕ
  pub result : AttemptResult
  pub created_at : ℕ

pub record MessageDelivery : Type 0 where
  pub id : ℕ
  pub tenant_id : Option ℕ
  pub otp_challenge_id : ℕ
  pub delivery_no : ℕ
  pub provider : String
  pub provider_message_ref : Option String
  pub status : MessageStatus
  pub error_summary : Option String
  pub created_at : ℕ
  pub completed_at : Option ℕ
