-- ===== src/Settlement.antt =====
-- modules/settlement: the bill of a table session and the payments on its check.
pub mod Billing
pub mod Payments
pub mod Balance
