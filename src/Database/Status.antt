-- ===== src/Database/Status.antt =====
-- The closed sets of words that the CHECK constraints of database/schema.py allow in a column,
-- and the comparisons that the statements make with them.
use io_tables.Common.{Bool, true, false}

-- table_sessions.status, checks.status: 'open' and 'closed'
pub data OpenStatus : Type 0 where
  opened closed : OpenStatus

-- `status == "open"`
abbrev pub is_open : OpenStatus → Bool
is_open opened = true
is_open closed = false

-- `status == "closed"`
abbrev pub is_closed : OpenStatus → Bool
is_closed opened = false
is_closed closed = true

-- The idempotency tables.
pub data IdempotencyStatus : Type 0 where
  processing completed failed : IdempotencyStatus

abbrev pub is_completed : IdempotencyStatus → Bool
is_completed completed = true
is_completed _ = false

-- payments.status
pub data PaymentStatus : Type 0 where
  recorded voided : PaymentStatus

abbrev pub is_recorded : PaymentStatus → Bool
is_recorded recorded = true
is_recorded voided = false

-- cashier_corrections.type
pub data CorrectionType : Type 0 where
  note item_void payment_void : CorrectionType

abbrev pub is_payment_void : CorrectionType → Bool
is_payment_void payment_void = true
is_payment_void _ = false

-- customer_carts.status
pub data CartStatus : Type 0 where
  active submitted abandoned : CartStatus

abbrev pub is_active : CartStatus → Bool
is_active active = true
is_active _ = false

-- staff_hall_assignments.status, table_display_credentials.status: 'active' and 'revoked'
pub data GrantStatus : Type 0 where
  granted revoked : GrantStatus

abbrev pub is_granted : GrantStatus → Bool
is_granted granted = true
is_granted revoked = false

-- venue_tables.mode
pub data TableMode : Type 0 where
  virtual_test physical : TableMode

abbrev pub is_physical : TableMode → Bool
is_physical physical = true
is_physical virtual_test = false

abbrev pub is_virtual_test : TableMode → Bool
is_virtual_test virtual_test = true
is_virtual_test physical = false

-- preparation_items.status
pub data PreparationStatus : Type 0 where
  pending preparing ready cannot_prepare : PreparationStatus

abbrev pub same_preparation : PreparationStatus → PreparationStatus → Bool
same_preparation pending pending = true
same_preparation preparing preparing = true
same_preparation ready ready = true
same_preparation cannot_prepare cannot_prepare = true
same_preparation _ _ = false

-- delivery_states.status
pub data DeliveryStatus : Type 0 where
  picked_up delivered : DeliveryStatus

abbrev pub same_delivery : DeliveryStatus → DeliveryStatus → Bool
same_delivery picked_up picked_up = true
same_delivery delivered delivered = true
same_delivery _ _ = false

-- tenants.status
pub data TenantStatus : Type 0 where
  tenant_provisioning tenant_active tenant_suspended tenant_failed : TenantStatus

abbrev pub is_tenant_active : TenantStatus → Bool
is_tenant_active tenant_active = true
is_tenant_active _ = false

-- users.status, staff_profiles.status, platform_role_assignments.status: 'active' and 'disabled'
pub data AccountStatus : Type 0 where
  in_use disabled : AccountStatus

abbrev pub is_in_use : AccountStatus → Bool
is_in_use in_use = true
is_in_use disabled = false

-- otp_challenges.purpose
pub data OtpPurpose : Type 0 where
  tenant_creation staff_password_reset tenant_admin_first_password cashier_first_password
        station_staff_first_password service_staff_first_password :
      OtpPurpose

abbrev pub same_purpose : OtpPurpose → OtpPurpose → Bool
same_purpose tenant_creation tenant_creation = true
same_purpose staff_password_reset staff_password_reset = true
same_purpose tenant_admin_first_password tenant_admin_first_password = true
same_purpose cashier_first_password cashier_first_password = true
same_purpose station_staff_first_password station_staff_first_password = true
same_purpose service_staff_first_password service_staff_first_password = true
same_purpose _ _ = false

-- otp_attempts.result
pub data AttemptResult : Type 0 where
  attempt_success attempt_failed attempt_locked attempt_expired : AttemptResult

-- message_deliveries.status
pub data MessageStatus : Type 0 where
  message_queued message_sent message_failed : MessageStatus
