-- ===== src/Fulfillment/Preparation/Queue.antt =====
-- PreparationQueryService and the queries of modules/fulfillment/preparation.py.
use io_tables.Common.{
  ℕ, String, Bool, true, false, not, ◌&&◌, Option, none, some, List, [], ◌∷◌, map, find, select,
  join, any, elem, order_by, ◌==◌,
}
use io_tables.Actor.{ActorContext, has_role, station_staff}
use io_tables.Errors.{not_authorized, outside_station_scope}
use io_tables.Database.{
  Db, OrderItem, PreparationItem, PreparationStatus, pending, preparing, ready, same_preparation,
}
use io_tables.Session.{Exec, ◌>>=◌, ◌>>◌, raise_if, or_raise, query}

pub record PreparationQueueItem : Type 0 where
  pub preparation_item_id : ℕ
  pub order_item_id : ℕ
  pub station_id : ℕ
  pub item_label : String
  pub variant_label : String
  pub quantity : ℕ
  pub note : Option String
  pub status : PreparationStatus
  pub ordered_at : ℕ
  pub updated_at : ℕ

unfoldable pub require_station_staff : ActorContext → Exec (Unit {0})
require_station_staff actor = raise_if (not (has_role station_staff actor)) not_authorized

-- `getattr(actor, "station_ids", frozenset())`: `ActorContext` has no such attribute, and no other
-- class is an actor, so the default is taken.
unfoldable pub actor_station_ids : ActorContext → List ℕ
actor_station_ids actor = []

abbrev pub is_nil {ℓ} : {A : Type ℓ} → List A → Bool
is_nil [] = true
is_nil (x ∷ xs) = false

unfoldable pub ensure_station_scope : ActorContext → ℕ → Exec (Unit {0})
ensure_station_scope actor station_id =
    raise_if
      (not (is_nil (actor_station_ids actor)) && not (elem station_id (actor_station_ids actor)))
      outside_station_scope

-- The rows of `list_queue_items`' join.
abbrev pub queue_rows : Db → List (PreparationItem × OrderItem)
queue_rows db =
    join (λ p i. (i.tenant_id == p.tenant_id) && (i.id == p.order_item_id)) db.preparation_items
      db.order_items

abbrev pub queue_item : PreparationItem × OrderItem → PreparationQueueItem
queue_item (p, i) = record {
  preparation_item_id = p.id;
  order_item_id = p.order_item_id;
  station_id = p.station_id;
  item_label = i.name_snapshot;
  variant_label = i.variant_name_snapshot;
  quantity = i.quantity;
  note = i.note;
  status = p.status;
  ordered_at = p.created_at;
  updated_at = p.updated_at;
}

-- Every caller filters by columns of `preparation_items` alone.
unfoldable pub list_queue_items : (PreparationItem → Bool) → Db → List PreparationQueueItem
list_queue_items filter db =
    map queue_item (order_by (λ r. r.0.created_at) (select (λ r. filter r.0) (queue_rows db)))

-- The statuses that `list_station_queue` shows.
abbrev pub is_shown : Option PreparationStatus → PreparationStatus → Bool
is_shown none status = any (same_preparation status) (pending ∷ preparing ∷ ready ∷ [])
is_shown (some wanted) status = same_preparation status wanted

unfoldable pub list_station_queue :
    ActorContext → ℕ → Option PreparationStatus → Exec (List PreparationQueueItem)
unfolding require_station_staff
list_station_queue actor station_id status = do
  require_station_staff actor
  tenant_id ← or_raise actor.tenant_id not_authorized
  ensure_station_scope actor station_id
  query (
      list_queue_items (λ p.
        (p.tenant_id == tenant_id) && (p.station_id == station_id) && is_shown status p.status))

abbrev pub is_item : ℕ → ℕ → PreparationItem → Bool
is_item tenant_id preparation_item_id p =
    (p.tenant_id == tenant_id) && (p.id == preparation_item_id)

-- `_load_preparation_item`
unfoldable pub load_preparation_item : ℕ → ℕ → Db → Option PreparationItem
load_preparation_item tenant_id preparation_item_id db =
    find (is_item tenant_id preparation_item_id) db.preparation_items
