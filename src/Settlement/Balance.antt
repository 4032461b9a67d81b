-- ===== src/Settlement/Balance.antt =====
-- No check is ever paid beyond its bill: an invariant of every cashier request.
mod Covered
pub mod Requests
pub mod VoidedOnce
pub use Covered.{IsCovered}
