-- ===== src/Fulfillment/Preparation.antt =====
-- modules/fulfillment/preparation.py: the queue of a station and the states of its items.
mod Queue
mod Transition
pub mod Laws
pub mod Trace
pub mod Steps
pub mod Requests
pub mod Accept
unfoldable pub use Queue.*
unfoldable pub use Transition.*
