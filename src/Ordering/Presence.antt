-- ===== src/Ordering/Presence.antt =====
-- Presence at a table: modules/ordering/table_presence.py.
pub mod Queries
pub mod Issue
pub mod Redeem
pub mod Accept
pub mod Window
pub mod Renewal
pub mod Decide
pub mod RoundTrip
pub mod Spent
pub mod Once
pub mod Requests
