-- ===== src/Fulfillment/Delivery/Again.antt =====
-- An item that is delivered once more.
use io_tables.Common.{ℕ, ◌≡◌, refl, ap, ◌∙◌, true, false, none, some, find, is_none}
use io_tables.Actor.{ActorContext, has_role, service_staff}
use io_tables.Errors.{invalid_delivery_transition}
use io_tables.Database.{DeliveryState, picked_up, delivered}
use io_tables.Session.{Session, ok, err}
use io_tables.Fulfillment.Delivery.Queries.{
  ServiceItem, DeliveryStateResult, is_tracked, is_assigned, load_ready_item, load_delivery_state,
}
use io_tables.Fulfillment.Delivery.Transition.{new_state, mark_picked_up, mark_delivered}
use io_tables.Fulfillment.Delivery.Steps.{load_ready_item_sound}
use io_tables.Fulfillment.Delivery.Requests.{ServiceReaches, delivered_stays}
use io_tables.Fulfillment.Delivery.Accept.{new_state-found, delivery_accepts, delivered-answers}

-- What is answered about an item that was delivered at a time without having been picked up.
abbrev pub delivered_at_once : ServiceItem → ℕ → ℕ → DeliveryStateResult
delivered_at_once item order_item_id now = record {
  order_item_id = order_item_id;
  preparation_item_id = item.preparation.id;
  status = delivered;
  picked_up_at = none;
  delivered_at = some now;
  actor_display_name = none;
}

-- At a tenant that tracks service delivery, service staff assigned to the item's hall mark a ready item
-- without a delivery state as delivered. Then, after any sequence of pick-ups, deliveries and bulk
-- deliveries by anyone, where tracking is on and the item is still ready, service staff assigned to
-- its hall who mark it delivered are answered with the time of the first delivery, and who mark it
-- picked up are refused with an invalid transition; neither changes anything.
pub delivered_again :
    (actor again : ActorContext) (tenant_id user_id again_id order_item_id : ℕ)
    (item later_item : ServiceItem) (s later : Session)
    → has_role service_staff actor ≡ true
    → actor.tenant_id ≡ some tenant_id
    → actor.user_id ≡ some user_id
    → is_tracked tenant_id s.db ≡ true
    → load_ready_item tenant_id order_item_id s.db ≡ some item
    → is_none (find (is_assigned tenant_id user_id item.table.hall_id) s.db.staff_hall_assignments)
      ≡ false
    → load_delivery_state tenant_id order_item_id s.db ≡ none
    → ServiceReaches (mark_delivered actor order_item_id s).1.committed later.db
    → has_role service_staff again ≡ true
    → again.tenant_id ≡ some tenant_id
    → again.user_id ≡ some again_id
    → is_tracked tenant_id later.db ≡ true
    → load_ready_item tenant_id order_item_id later.db ≡ some later_item
    → is_none (
        find
          (is_assigned tenant_id again_id later_item.table.hall_id)
          later.db.staff_hall_assignments)
      ≡ false
    → (mark_delivered again order_item_id later
        ≡ (ok (delivered_at_once later_item order_item_id (s.clock s.read)), later))
      × (mark_picked_up again order_item_id later ≡ (err invalid_delivery_transition, later))
unfolding mark_delivered mark_picked_up
delivered_again actor again tenant_id user_id again_id order_item_id item later_item s later role
      at_tenant at_user tracked found assigned untouched reached role' at_tenant' at_user' tracked'
      found' assigned' =
    let row : DeliveryState =
      new_state tenant_id user_id order_item_id delivered (s.clock s.read) (s.uuids s.drawn) in
    let first : load_delivery_state tenant_id order_item_id
          (mark_delivered actor order_item_id s).1.committed
        ≡ some row =
      ap (λ o. load_delivery_state tenant_id order_item_id o.1.committed)
        (delivery_accepts actor tenant_id user_id order_item_id item delivered s role at_tenant
          at_user tracked found assigned untouched)
      ∙ new_state-found actor tenant_id user_id order_item_id item delivered s role at_tenant
          at_user tracked found assigned untouched in
    let kept : load_delivery_state tenant_id order_item_id later.db ≡ some row =
      delivered_stays tenant_id order_item_id row refl first reached in
    (
      delivered-answers again tenant_id again_id order_item_id later_item delivered later role'
            at_tenant' at_user' tracked' found' assigned' row kept refl
          ∙ ap (λ k. (ok (delivered_at_once later_item k (s.clock s.read)), later))
              (load_ready_item_sound tenant_id order_item_id later.db later_item found'),
      delivered-answers again tenant_id again_id order_item_id later_item picked_up later role'
          at_tenant' at_user' tracked' found' assigned' row kept refl,
    )
