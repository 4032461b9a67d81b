-- ===== src/Fulfillment/Delivery/Queries.antt =====
-- ServiceDeliveryQueryService and the queries of modules/fulfillment/service_delivery.py.
use io_tables.Common.{
  ℕ, String, Bool, true, false, not, ◌&&◌, Option, none, some, List, [], ◌∷◌, ◌++◌, map, find,
  select, matches, join, order_by, is_none, elem, ◌==◌, if◌then◌else◌,
}
use io_tables.Actor.{ActorContext, has_role, service_staff}
use io_tables.Errors.{not_authorized, service_tracking_disabled, outside_hall_scope}
use io_tables.Database.{
  Db, PreparationItem, OrderItem, Order, TableSession, VenueTable, DeliveryState, DeliveryStatus,
  StaffHallAssignment, ready, picked_up, delivered, same_preparation, same_delivery, is_granted,
}
use io_tables.Session.{Exec, ◌>>=◌, ◌>>◌, pure, raise_if, or_raise, query}

-- A row of `service_item_select`, by the tables that it joins.
pub record ServiceItem : Type 0 where
  pub preparation : PreparationItem
  pub item : OrderItem
  pub table_session : TableSession
  pub table : VenueTable
  pub delivery : Option DeliveryState

pub record ServiceReadyItem : Type 0 where
  pub order_item_id : ℕ
  pub preparation_item_id : ℕ
  pub table_id : ℕ
  pub hall_id : ℕ
  pub table_label : String
  pub item_label : String
  pub quantity : ℕ
  pub preparation_ready_at : ℕ
  pub delivery_status : Option DeliveryStatus

pub record DeliveryStateResult : Type 0 where
  pub order_item_id : ℕ
  pub preparation_item_id : ℕ
  pub status : DeliveryStatus
  pub picked_up_at : Option ℕ
  pub delivered_at : Option ℕ
  pub actor_display_name : Option String

-- `x.outerjoin(y, on)` for one row of `x`.
abbrev pub outer {ℓ} : {A B C : Type ℓ} → (A → Option B → C) → A → List (A × B) → List C
outer pair x [] = pair x none ∷ []
outer pair x (r ∷ rs) = map (λ r. pair x (some r.1)) (r ∷ rs)

abbrev pub outer_join {ℓ} :
    {A B C : Type ℓ} → (A → Option B → C) → (A → B → Bool) → List A → List B → List C
outer_join pair on [] ys = []
outer_join pair on (x ∷ xs) ys = outer pair x (matches on x ys) ++ outer_join pair on xs ys

abbrev pub service_item :
    (((PreparationItem × OrderItem) × Order) × TableSession) × VenueTable
    → Option DeliveryState
    → ServiceItem
service_item ((((p, i), o), s), t) d = record {
  preparation = p;
  item = i;
  table_session = s;
  table = t;
  delivery = d;
}

-- The rows of `service_item_select`.
unfoldable pub service_items : Db → List ServiceItem
service_items db =
    let with_item =
      join (λ p i. (i.tenant_id == p.tenant_id) && (i.id == p.order_item_id)) db.preparation_items
        db.order_items in
    let with_order =
      join (λ r o. (o.tenant_id == r.1.tenant_id) && (o.id == r.1.order_id)) with_item db.orders in
    let with_session =
      join (λ r s. (s.tenant_id == r.1.tenant_id) && (s.id == r.1.table_session_id)) with_order
        db.table_sessions in
    let with_table =
      join (λ r t. (t.tenant_id == r.1.tenant_id) && (t.id == r.1.table_id)) with_session
        db.venue_tables in
    outer_join service_item
      (λ r d. (d.tenant_id == r.0.0.0.1.tenant_id) && (d.order_item_id == r.0.0.0.1.id)) with_table
      db.delivery_states

-- What every select of ready items filters by.
abbrev pub is_ready_item : ℕ → ServiceItem → Bool
is_ready_item tenant_id r =
    (r.preparation.tenant_id == tenant_id)
    && same_preparation r.preparation.status ready
    && is_none r.item.voided_at

abbrev pub in_hall : Option ℕ → ServiceItem → Bool
in_hall none r = true
in_hall (some hall_id) r = r.table.hall_id == hall_id

abbrev pub has_status : Option DeliveryStatus → Option DeliveryState → Bool
has_status none none = true
has_status none (some d) = same_delivery d.status picked_up
has_status (some wanted) none = false
has_status (some wanted) (some d) = same_delivery d.status wanted

unfoldable pub ready_item_filters : ℕ → Option ℕ → Option DeliveryStatus → ServiceItem → Bool
ready_item_filters tenant_id hall_id status r =
    is_ready_item tenant_id r && in_hall hall_id r && has_status status r.delivery

abbrev pub status_of : Option DeliveryState → Option DeliveryStatus
status_of none = none
status_of (some d) = some d.status

abbrev pub to_ready_item : ServiceItem → ServiceReadyItem
to_ready_item r = record {
  order_item_id = r.item.id;
  preparation_item_id = r.preparation.id;
  table_id = r.table_session.table_id;
  hall_id = r.table.hall_id;
  table_label = r.table.name;
  item_label = r.item.name_snapshot;
  quantity = r.item.quantity;
  preparation_ready_at = r.preparation.updated_at;
  delivery_status = status_of r.delivery;
}

-- `x if status == "picked_up" else None`, and the same for "delivered".
abbrev pub at_status : DeliveryStatus → DeliveryStatus → ℕ → Option ℕ
at_status wanted status time = if same_delivery status wanted then some time else none

abbrev pub to_delivery_state_result : ServiceItem → DeliveryState → DeliveryStateResult
to_delivery_state_result r d = record {
  order_item_id = r.item.id;
  preparation_item_id = r.preparation.id;
  status = d.status;
  picked_up_at = at_status picked_up d.status d.created_at;
  delivered_at = at_status delivered d.status d.updated_at;
  actor_display_name = none;
}

-- `service_delivery_tracking_enabled` of the tenant's settings; a missing row is not True.
unfoldable pub is_tracked : ℕ → Db → Bool
is_tracked tenant_id db =
    elim (find (λ t. t.tenant_id == tenant_id) db.tenant_operational_settings) [
      | none ↦ false
      | some t ↦ t.service_delivery_tracking_enabled
    ]

unfoldable pub require_service_staff_context : ActorContext → Exec (Unit {0})
require_service_staff_context actor = do
  tenant_id ← or_raise actor.tenant_id not_authorized
  user_id ← or_raise actor.user_id not_authorized
  raise_if (not (has_role service_staff actor)) not_authorized
  tracked ← query (is_tracked tenant_id)
  raise_if (not tracked) service_tracking_disabled

abbrev pub is_assigned : ℕ → ℕ → ℕ → StaffHallAssignment → Bool
is_assigned tenant_id user_id hall_id a =
    (a.tenant_id == tenant_id)
    && (a.user_id == user_id)
    && (a.hall_id == hall_id)
    && is_granted a.status

unfoldable pub ensure_hall_scope : ActorContext → ℕ → Exec (Unit {0})
ensure_hall_scope actor hall_id = do
  tenant_id ← or_raise actor.tenant_id not_authorized
  user_id ← or_raise actor.user_id not_authorized
  row ← query (λ db. find (is_assigned tenant_id user_id hall_id) db.staff_hall_assignments)
  raise_if (is_none row) outside_hall_scope

abbrev pub ensure_filtered_hall : ActorContext → Option ℕ → Exec (Unit {0})
ensure_filtered_hall actor none = pure tt
ensure_filtered_hall actor (some hall_id) = ensure_hall_scope actor hall_id

unfoldable pub list_ready_items :
    ActorContext → Option ℕ → Option DeliveryStatus → Exec (List ServiceReadyItem)
list_ready_items actor hall_id status = do
  require_service_staff_context actor
  tenant_id ← or_raise actor.tenant_id not_authorized
  ensure_filtered_hall actor hall_id
  rows ← query (λ db. select (ready_item_filters tenant_id hall_id status) (service_items db))
  pure (
      map to_ready_item
        (order_by (λ r. r.preparation.updated_at) (order_by (λ r. r.item.created_at) rows)))

-- `_load_ready_item`
unfoldable pub load_ready_item : ℕ → ℕ → Db → Option ServiceItem
load_ready_item tenant_id order_item_id db =
    find (λ r. is_ready_item tenant_id r && (r.item.id == order_item_id)) (service_items db)

-- `_load_bulk_ready_items`
unfoldable pub load_bulk_ready_items : ℕ → List ℕ → Db → List ServiceItem
load_bulk_ready_items tenant_id order_item_ids db =
    order_by (λ r. r.item.id)
      (select (λ r. is_ready_item tenant_id r && elem r.item.id order_item_ids) (service_items db))

abbrev pub is_state : ℕ → ℕ → DeliveryState → Bool
is_state tenant_id order_item_id d =
    (d.tenant_id == tenant_id) && (d.order_item_id == order_item_id)

-- `_load_delivery_state`
unfoldable pub load_delivery_state : ℕ → ℕ → Db → Option DeliveryState
load_delivery_state tenant_id order_item_id db =
    find (is_state tenant_id order_item_id) db.delivery_states
