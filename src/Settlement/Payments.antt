-- ===== src/Settlement/Payments.antt =====
-- PaymentService of modules/settlement/payments.py: queries and results (Queries), recording
-- (Record) and voiding (Void).
mod Queries
mod Record
mod Void
pub mod RecordLaws
pub mod RecordErrors
pub mod Accept
pub mod VoidLaws
pub mod VoidAccept
pub mod VoidErrors
unfoldable pub use Queries.*
unfoldable pub use Record.*
unfoldable pub use Void.*
