-- ===== src/Fulfillment/Preparation/Accept.antt =====
-- How a request of the station app is decided.
use io_tables.Session.{Session}
