-- ===== src/Fulfillment/Delivery.antt =====
-- modules/fulfillment/service_delivery.py: ready items, handed over one by one or table by table.
mod Queries
mod Transition
mod Bulk
pub mod Guards
pub mod Laws
pub mod Each
pub mod Trace
pub mod Steps
pub mod BulkSteps
pub mod Requests
pub mod Accept
pub mod Again
pub mod Logs
unfoldable pub use Queries.*
unfoldable pub use Transition.*
unfoldable pub use Bulk.*
