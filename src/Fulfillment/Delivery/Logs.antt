-- ===== src/Fulfillment/Delivery/Logs.antt =====
-- The logs of deliveries under any run of requests of the service app.
use io_tables.Common.{ℕ, ◌≡◌, Option, some}
use io_tables.Actor.{ActorContext}
use io_tables.Database.{Db, DeliveryState, DeliveryStatus, delivered}
use io_tables.Session.{Session, begin}
use io_tables.Session.Ends.{
  Ends, Always, Ends-Pending, Ends-utc_now, Ends-uuid4, Ends-execute, Ends-query, Ends-raise_if,
  Ends-or_raise, Ends-commit, ends_rules,
}
use io_tables.Fulfillment.Delivery.Queries.{
  ServiceItem, load_delivery_state, require_service_staff_context, ensure_hall_scope,
}
use io_tables.Fulfillment.Delivery.Transition.{
  make_transition, transition_from, delivery_transition, mark_picked_up, mark_delivered,
}
use io_tables.Fulfillment.Delivery.Bulk.{
  BulkDelivery, deliver_new, replay_bulk, bulk_mark_delivered,
}
use io_tables.Fulfillment.Delivery.Guards.{Ends-ensure_hall_scope}
use io_tables.Fulfillment.Delivery.Laws.{apply_delivery_transition-Pending}
use io_tables.Fulfillment.Delivery.Trace.{IsLogged, IsLogged-written}
use io_tables.Fulfillment.Delivery.Steps.{load_ready_item_sound}
use io_tables.Fulfillment.Delivery.BulkSteps.{deliver_rows-Ends}
use io_tables.Fulfillment.Delivery.Requests.{
  ServiceRequest, mark_picked_up_request, mark_delivered_request, bulk_mark_delivered_request,
  serve_service, ServiceReaches, service_here, service_next,
}

IsLogged-same : {c c' : Db} → c' ≡ c → IsLogged c → IsLogged c'
IsLogged-same same inv = rw same inv

-- The tables of a log, in a database that differs elsewhere.
IsLogged-tables :
    (db db' : Db)
    → db'.delivery_states ≡ db.delivery_states
    → db'.delivery_transitions ≡ db.delivery_transitions
    → IsLogged db
    → IsLogged db'
unfolding load_delivery_state
IsLogged-tables db db' states transitions inv t k = simp (states, transitions) (inv t k)

state_of_item :
    (actor : ActorContext) (tenant_id order_item_id t i : ℕ) (db : Db)
    (existing : Option DeliveryState)
    → actor.tenant_id ≡ some tenant_id
    → actor.tenant_id ≡ some t
    → i ≡ order_item_id
    → load_delivery_state tenant_id order_item_id db ≡ existing
    → load_delivery_state t i db ≡ existing
state_of_item actor tenant_id order_item_id t i db existing at_tenant at_t same e = cc

-- A session that has written nothing yet.
module _ (actor : ActorContext) (s : Session) (seen : IsLogged s.db)
    (inv : IsLogged s.committed) where
  make_transition-Logged :
      (tenant_id order_item_id : ℕ) (to_status : DeliveryStatus) (item : ServiceItem)
      (existing : Option DeliveryState)
      → actor.tenant_id ≡ some tenant_id
      → item.item.id ≡ order_item_id
      → load_delivery_state tenant_id order_item_id s.db ≡ existing
      → Ends
          (Always IsLogged)
          (make_transition actor tenant_id order_item_id to_status item existing s)
  unfolding make_transition
  make_transition-Logged tenant_id order_item_id to_status item existing at_tenant same e =
      Ends-utc_now s _ (
        Ends-raise_if _ _ _ _ inv (λ step.
          Ends-Pending IsLogged s.committed _ _ _
            (apply_delivery_transition-Pending IsLogged actor item existing to_status
              (s.clock s.read) _
              (λ t u at_t step.
                IsLogged-written t u item.item.id existing to_status (s.clock s.read) _
                  (state_of_item actor tenant_id order_item_id t item.item.id s.db existing
                    at_tenant at_t same e)
                  step seen))
            (λ s' h. IsLogged-same h inv)
            (λ done s' h logged. Ends-commit s' _ (search ends_rules depth 10))))

  transition_from-Logged :
      (tenant_id order_item_id : ℕ) (to_status : DeliveryStatus) (item : ServiceItem)
      (d : DeliveryState)
      → actor.tenant_id ≡ some tenant_id
      → item.item.id ≡ order_item_id
      → load_delivery_state tenant_id order_item_id s.db ≡ some d
      → Ends (Always IsLogged) (transition_from actor tenant_id order_item_id to_status item d s)
  unfolding transition_from
  transition_from-Logged tenant_id order_item_id to_status item d at_tenant same e =
      search (ends_rules, make_transition-Logged) depth 20

  delivery_transition-Logged :
      (order_item_id : ℕ) (to_status : DeliveryStatus)
      → Ends (Always IsLogged) (delivery_transition actor order_item_id to_status s)
  unfolding delivery_transition require_service_staff_context ensure_hall_scope
  delivery_transition-Logged order_item_id to_status =
      search (ends_rules, make_transition-Logged, transition_from-Logged, load_ready_item_sound)
        depth 40

  deliver_new-Logged :
      (tenant_id user_id : ℕ) (r : BulkDelivery)
      → actor.tenant_id ≡ some tenant_id
      → Ends (Always IsLogged) (deliver_new actor tenant_id user_id r s)
  unfolding deliver_new load_delivery_state
  deliver_new-Logged tenant_id user_id r at_tenant = Ends-utc_now s _ (
      Ends-uuid4 _ _ (
        Ends-execute _ _ _ (
          Ends-query _ _ _ (
            Ends-raise_if _ _ _ _ inv (λ all_there. Ends-raise_if _ _ _ _ inv (λ one_table.
              Ends-or_raise _ _ _ _ inv (λ first at.
                Ends-ensure_hall_scope _ _ _ inv
                  (deliver_rows-Ends IsLogged
                    (λ t u i existing now s' at_state step h.
                      IsLogged-written t u i existing delivered now s' at_state step h)
                    IsLogged-tables actor tenant_id user_id r (s.clock s.read) _ _ at_tenant seen
                    (λ s' same. IsLogged-same same inv) (λ s' kept all. kept))
                  _)))))))

  bulk_mark_delivered-Logged :
      (r : BulkDelivery) → Ends (Always IsLogged) (bulk_mark_delivered actor r s)
  unfolding bulk_mark_delivered require_service_staff_context replay_bulk
  bulk_mark_delivered-Logged r = search (ends_rules, deliver_new-Logged) depth 40

serve_service-IsLogged :
    (actor : ActorContext) (uuids clock : ℕ → ℕ) (db : Db) (request : ServiceRequest)
    → IsLogged db
    → IsLogged (serve_service actor uuids clock db request)
unfolding serve_service mark_picked_up mark_delivered
serve_service-IsLogged actor uuids clock db (mark_picked_up_request item) inv =
    (delivery_transition-Logged actor (begin db uuids clock) inv inv item _).at
serve_service-IsLogged actor uuids clock db (mark_delivered_request item) inv =
    (delivery_transition-Logged actor (begin db uuids clock) inv inv item _).at
serve_service-IsLogged actor uuids clock db (bulk_mark_delivered_request r) inv =
    (bulk_mark_delivered-Logged actor (begin db uuids clock) inv inv r).at

-- From a database in which each item's delivery log leads from nothing to the item's delivery state
-- by transitions that the CHECK constraint of `delivery_transitions` allows, and is empty where the
-- item has no state, no sequence of pick-ups, deliveries and bulk deliveries leaves a database in
-- which one does not.
pub delivery_logs_lead : {db db' : Db} → IsLogged db → ServiceReaches db db' → IsLogged db'
delivery_logs_lead inv service_here = inv
delivery_logs_lead inv (service_next actor uuids clock request reached) =
    serve_service-IsLogged actor uuids clock _ request (delivery_logs_lead inv reached)
