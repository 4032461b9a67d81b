-- ===== src/Tests.antt =====
-- Runs of the services on a small venue, and the theorems at inputs that meet their hypotheses.
mod Fixture
mod Settlement
mod Kitchen
mod Fulfillment
mod Ordering
mod Presence
mod Access
mod Cart
mod Totp
mod Owner
