-- ===== src/Database.antt =====
-- The tables of database/schema.py that the modelled services read and write. A table is the list
-- of its rows in the order of insertion; ids and times are natural numbers, which the services
-- only compare and order.
pub mod Status
pub mod Venue
pub mod Access
pub mod Ordering
pub mod Fulfillment
pub mod Settlement
use io_tables.Common.{List}
pub use Status.*
pub use Venue.*
pub use Access.*
pub use Ordering.*
pub use Fulfillment.*
pub use Settlement.*

pub record Db : Type 0 where
  pub tenant_operational_settings : List TenantOperationalSettings
  pub halls : List Hall
  pub venue_tables : List VenueTable
  pub staff_hall_assignments : List StaffHallAssignment
  pub table_display_credentials : List TableDisplayCredential
  pub table_access_tokens : List TableAccessToken
  pub table_sessions : List TableSession
  pub checks : List Check
  pub customer_ordering_sessions : List CustomerOrderingSession
  pub customer_carts : List CustomerCartRow
  pub customer_cart_items : List CustomerCartItemRow
  pub orders : List Order
  pub order_items : List OrderItem
  pub order_submit_idempotency : List OrderSubmitIdempotency
  pub preparation_items : List PreparationItem
  pub preparation_transitions : List PreparationTransition
  pub delivery_states : List DeliveryState
  pub delivery_transitions : List DeliveryTransition
  pub delivery_bulk_idempotency : List DeliveryBulkIdempotency
  pub payments : List PaymentRow
  pub payment_idempotency : List PaymentIdempotency
  pub payment_void_idempotency : List PaymentVoidIdempotency
  pub cashier_corrections : List CashierCorrection
  pub session_closures : List SessionClosure
  pub audit_events : List AuditEvent
  pub tenants : List Tenant
  pub users : List User
  pub credentials : List Credential
  pub login_sessions : List LoginSession
  pub totp_factors : List TotpFactor
  pub platform_role_assignments : List PlatformRoleAssignment
  pub staff_profiles : List StaffProfile
  pub staff_role_assignments : List StaffRoleAssignment
  pub otp_challenges : List OtpChallenge
  pub otp_attempts : List OtpAttempt
  pub message_deliveries : List MessageDelivery
