-- ===== src/Settlement/Billing.antt =====
-- TableSessionBillingService of modules/settlement/table_session_billing.py: the bill of a table
-- session (Totals), the queries (Queries), the venue board (Board) and the closing (Close).
mod Totals
mod Queries
mod Board
mod Close
pub mod Closing
unfoldable pub use Totals.*
unfoldable pub use Queries.*
unfoldable pub use Board.*
unfoldable pub use Close.*
