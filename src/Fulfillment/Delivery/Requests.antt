-- ===== src/Fulfillment/Delivery/Requests.antt =====
-- The requests of the service app, and what any run of them leaves behind.
use io_tables.Common.{ℕ, ◌≡◌, true, some}
use io_tables.Actor.{ActorContext}
use io_tables.Database.{Db, DeliveryState, delivered, same_delivery}
use io_tables.Session.{begin}
use io_tables.Fulfillment.Delivery.Queries.{load_delivery_state}
use io_tables.Fulfillment.Delivery.Transition.{mark_picked_up, mark_delivered}
use io_tables.Fulfillment.Delivery.Bulk.{BulkDelivery, bulk_mark_delivered}
use io_tables.Fulfillment.Delivery.Steps.{delivery_transition-stays}
use io_tables.Fulfillment.Delivery.BulkSteps.{bulk_mark_delivered-stays}

-- A request of the service app that writes.
pub data ServiceRequest : Type 0 where
  mark_picked_up_request : ℕ → ServiceRequest
  mark_delivered_request : ℕ → ServiceRequest
  bulk_mark_delivered_request : BulkDelivery → ServiceRequest

-- What is committed once the request is answered.
unfoldable pub serve_service : ActorContext → (ℕ → ℕ) → (ℕ → ℕ) → Db → ServiceRequest → Db
serve_service actor uuids clock db (mark_picked_up_request item) =
    (mark_picked_up actor item (begin db uuids clock)).1.committed
serve_service actor uuids clock db (mark_delivered_request item) =
    (mark_delivered actor item (begin db uuids clock)).1.committed
serve_service actor uuids clock db (bulk_mark_delivered_request r) =
    (bulk_mark_delivered actor r (begin db uuids clock)).1.committed

-- The databases that requests of any service staff, one after the other, can lead to.
pub data ServiceReaches (db : Db) : Db → Type 0 where
  service_here : ServiceReaches db db
  service_next :
      {db' : Db} (actor : ActorContext) (uuids clock : ℕ → ℕ) (request : ServiceRequest)
      → ServiceReaches db db'
      → ServiceReaches db (serve_service actor uuids clock db' request)

serve_service-stays :
    (actor : ActorContext) (uuids clock : ℕ → ℕ) (db : Db) (request : ServiceRequest)
    (tenant_id order_item_id : ℕ) (row : DeliveryState)
    → same_delivery row.status delivered ≡ true
    → load_delivery_state tenant_id order_item_id db ≡ some row
    → load_delivery_state tenant_id order_item_id (serve_service actor uuids clock db request)
      ≡ some row
unfolding serve_service mark_picked_up mark_delivered
serve_service-stays actor uuids clock db (mark_picked_up_request item) t k row final found =
    (delivery_transition-stays actor (begin db uuids clock) t k row final found found item _).at
serve_service-stays actor uuids clock db (mark_delivered_request item) t k row final found =
    (delivery_transition-stays actor (begin db uuids clock) t k row final found found item _).at
serve_service-stays actor uuids clock db (bulk_mark_delivered_request r) t k row final found =
    (bulk_mark_delivered-stays actor (begin db uuids clock) t k row final found found r).at

-- A delivery state that is delivered is left as it is by every sequence of pick-ups, deliveries and
-- bulk deliveries, whoever makes them.
pub delivered_stays :
    {db db' : Db} (tenant_id order_item_id : ℕ) (row : DeliveryState)
    → same_delivery row.status delivered ≡ true
    → load_delivery_state tenant_id order_item_id db ≡ some row
    → ServiceReaches db db'
    → load_delivery_state tenant_id order_item_id db' ≡ some row
delivered_stays tenant_id order_item_id row final found service_here = found
delivered_stays tenant_id order_item_id row final found
      (service_next actor uuids clock request reached) =
    serve_service-stays actor uuids clock _ request tenant_id order_item_id row final
      (delivered_stays tenant_id order_item_id row final found reached)
