-- ===== src/Ordering.antt =====
-- modules/ordering: what a guest orders, at which price, and how it reaches the kitchen and the bill.
pub mod Menu
pub mod Pricing
pub mod Submit
pub mod Presence
pub mod Cart
pub mod Orders
