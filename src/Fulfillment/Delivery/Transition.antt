-- ===== src/Fulfillment/Delivery/Transition.antt =====
-- `mark_picked_up`, `mark_delivered` and the steps they share with the bulk delivery.
use io_tables.Common.{
  ℕ, Bool, true, false, not, ◌&&◌, Option, none, some, find, update, insert, is_none, ◌==◌,
  if◌then◌else◌,
}
use io_tables.Actor.{ActorContext}
use io_tables.Errors.{
  not_authorized, not_found_or_hidden, not_ready_for_delivery, invalid_delivery_transition,
}
use io_tables.Database.{
  DeliveryState, DeliveryStatus, DeliveryTransition, picked_up, delivered, same_delivery,
}
use io_tables.Session.{
  Exec, ◌>>=◌, ◌>>◌, pure, raise_if, or_raise, query, execute, commit, uuid4, utc_now, case_option,
}
use io_tables.Fulfillment.Delivery.Queries.{
  ServiceItem, DeliveryStateResult, status_of, at_status, to_delivery_state_result,
  require_service_staff_context, ensure_hall_scope, load_ready_item, load_delivery_state,
}

-- `to_status == "picked_up" and from_status is not None`, and then
-- `to_status == "delivered" and from_status not in (None, "picked_up")`
abbrev pub is_refused : Option DeliveryStatus → DeliveryStatus → Bool
is_refused none to_status = false
is_refused (some from_status) picked_up = true
is_refused (some from_status) delivered = not (same_delivery from_status picked_up)

-- The row that is inserted into `delivery_states`.
abbrev pub new_state : ℕ → ℕ → ℕ → DeliveryStatus → ℕ → ℕ → DeliveryState
new_state tenant_id user_id order_item_id to_status now state_id = record {
  id = state_id;
  tenant_id = tenant_id;
  order_item_id = order_item_id;
  status = to_status;
  updated_by_user_id = user_id;
  updated_at = now;
  created_at = now;
}

-- The condition of the update: nobody else has moved the state since it was read.
abbrev pub is_state_at : ℕ → ℕ → DeliveryStatus → DeliveryState → Bool
is_state_at tenant_id order_item_id from_status d =
    (d.tenant_id == tenant_id)
    && (d.order_item_id == order_item_id)
    && same_delivery d.status from_status

abbrev pub advanced : ℕ → DeliveryStatus → ℕ → DeliveryState → DeliveryState
advanced user_id to_status now d = record d {
  status = to_status;
  updated_by_user_id = user_id;
  updated_at = now;
}

-- The row that is inserted into `delivery_transitions`.
abbrev pub new_delivery_transition :
    ℕ → ℕ → ℕ → ℕ → Option DeliveryStatus → DeliveryStatus → ℕ → ℕ → DeliveryTransition
new_delivery_transition tenant_id user_id state_id order_item_id from_status to_status now
      transition_id =
    record {
      id = transition_id;
      tenant_id = tenant_id;
      delivery_state_id = state_id;
      order_item_id = order_item_id;
      actor_user_id = user_id;
      from_status = from_status;
      to_status = to_status;
      created_at = now;
    }

-- The first write of `_apply_delivery_transition`, where there is no state yet: its id.
unfoldable pub create_state : ℕ → ℕ → ℕ → DeliveryStatus → ℕ → Exec ℕ
create_state tenant_id user_id order_item_id to_status now = do
  state_id ← uuid4
  execute (λ db. record db {
    delivery_states =
        insert (new_state tenant_id user_id order_item_id to_status now state_id)
          db.delivery_states;
  })
  pure state_id

-- The same where there is one. What the update returns is none if it hit no row.
unfoldable pub advance_state : ℕ → ℕ → ℕ → DeliveryStatus → ℕ → DeliveryState → Exec ℕ
advance_state tenant_id user_id order_item_id to_status now existing = do
  hit ← query (λ db. find (is_state_at tenant_id order_item_id existing.status) db.delivery_states)
  execute (λ db. record db {
    delivery_states =
        update (is_state_at tenant_id order_item_id existing.status)
          (advanced user_id to_status now) db.delivery_states;
  })
  raise_if (is_none hit) invalid_delivery_transition
  pure existing.id

-- The writes of `_apply_delivery_transition`.
unfoldable pub delivery_writes :
    ℕ → ℕ → ℕ → Option DeliveryState → DeliveryStatus → ℕ → Exec (Unit {0})
delivery_writes tenant_id user_id order_item_id existing to_status now = do
  state_id ←
      case_option existing (create_state tenant_id user_id order_item_id to_status now)
        (advance_state tenant_id user_id order_item_id to_status now)
  transition_id ← uuid4
  execute (λ db. record db {
    delivery_transitions =
        insert
          (new_delivery_transition tenant_id user_id state_id order_item_id (status_of existing)
            to_status now transition_id)
          db.delivery_transitions;
  })

-- The answer of `_apply_delivery_transition`.
abbrev pub applied : ServiceItem → DeliveryStatus → ℕ → DeliveryStateResult
applied item to_status now = record {
  order_item_id = item.item.id;
  preparation_item_id = item.preparation.id;
  status = to_status;
  picked_up_at = at_status picked_up to_status now;
  delivered_at = at_status delivered to_status now;
  actor_display_name = none;
}

-- `_apply_delivery_transition`
unfoldable pub apply_delivery_transition :
    ActorContext
    → ServiceItem
    → Option DeliveryState
    → DeliveryStatus
    → ℕ
    → Exec DeliveryStateResult
apply_delivery_transition actor item existing to_status now = do
  tenant_id ← or_raise actor.tenant_id not_authorized
  user_id ← or_raise actor.user_id not_authorized
  raise_if (is_refused (status_of existing) to_status) invalid_delivery_transition
  delivery_writes tenant_id user_id item.item.id existing to_status now
  pure (applied item to_status now)

-- `_transition` behind its early returns.
unfoldable pub make_transition :
    ActorContext
    → ℕ
    → ℕ
    → DeliveryStatus
    → ServiceItem
    → Option DeliveryState
    → Exec DeliveryStateResult
make_transition actor tenant_id order_item_id to_status item existing = do
  now ← utc_now
  raise_if (is_refused (status_of existing) to_status) invalid_delivery_transition
  applied_result ← apply_delivery_transition actor item existing to_status now
  commit
  state ← query (load_delivery_state tenant_id order_item_id)
  found ← or_raise state not_found_or_hidden
  pure (to_delivery_state_result item found)

-- `_transition` where the item has a state.
unfoldable pub transition_from :
    ActorContext → ℕ → ℕ → DeliveryStatus → ServiceItem → DeliveryState → Exec DeliveryStateResult
transition_from actor tenant_id order_item_id to_status item existing =
    if same_delivery existing.status delivered
    then or_raise
        (if same_delivery to_status delivered
          then some (to_delivery_state_result item existing)
          else none)
        invalid_delivery_transition
    else if same_delivery existing.status to_status
    then pure (to_delivery_state_result item existing)
    else make_transition actor tenant_id order_item_id to_status item (some existing)

-- `_transition`
unfoldable pub delivery_transition : ActorContext → ℕ → DeliveryStatus → Exec DeliveryStateResult
delivery_transition actor order_item_id to_status = do
  require_service_staff_context actor
  tenant_id ← or_raise actor.tenant_id not_authorized
  user_id ← or_raise actor.user_id not_authorized
  found ← query (load_ready_item tenant_id order_item_id)
  item ← or_raise found not_ready_for_delivery
  ensure_hall_scope actor item.table.hall_id
  existing ← query (load_delivery_state tenant_id order_item_id)
  case_option existing (make_transition actor tenant_id order_item_id to_status item none)
      (transition_from actor tenant_id order_item_id to_status item)

unfoldable pub mark_picked_up : ActorContext → ℕ → Exec DeliveryStateResult
mark_picked_up actor order_item_id = delivery_transition actor order_item_id picked_up

unfoldable pub mark_delivered : ActorContext → ℕ → Exec DeliveryStateResult
mark_delivered actor order_item_id = delivery_transition actor order_item_id delivered
