-- ===== src/Fulfillment.antt =====
-- modules/fulfillment: an ordered item on its way through the kitchen and to the table.
pub mod Preparation
pub mod Delivery
