-- ===== src/Fulfillment/Delivery/Bulk.antt =====
-- `bulk_mark_delivered` of modules/fulfillment/service_delivery.py.
use io_tables.Common.{
  ℕ, String, Bool, true, false, not, ◌&&◌, ◌||◌, Option, none, some, List, [], ◌∷◌, map, find,
  update, insert, any, length, count_distinct, strip, is_empty, str_eq, ◌==◌,
}
use io_tables.Actor.{ActorContext}
use io_tables.Errors.{
  not_authorized, idempotency_key_required, idempotency_conflict, bulk_item_invalid,
  bulk_mixed_table,
}
use io_tables.Database.{
  Db, DeliveryState, DeliveryBulkIdempotency, delivered, same_delivery, processing, completed,
  is_completed,
}
use io_tables.Session.{
  Exec, ◌>>=◌, ◌>>◌, pure, raise_if, or_raise, query, execute, commit, uuid4, utc_now, case_option,
}
use io_tables.Fulfillment.Delivery.Queries.{
  ServiceItem, DeliveryStateResult, to_delivery_state_result, require_service_staff_context,
  ensure_hall_scope, load_bulk_ready_items, load_delivery_state,
}
use io_tables.Fulfillment.Delivery.Transition.{apply_delivery_transition}

-- The arguments of `bulk_mark_delivered` behind the actor.
pub record BulkDelivery : Type 0 where
  pub table_id : ℕ
  pub order_item_ids : List ℕ
  pub idempotency_key : String
  pub request_hash : String

pub record BulkDeliveryResult : Type 0 where
  pub table_id : ℕ
  pub delivered_items : List DeliveryStateResult
  pub already_delivered_items : List ℕ
  pub delivered_at : Option ℕ
  pub actor_display_name : Option String
  pub duplicate : Bool

abbrev pub is_bulk_key : ℕ → ℕ → String → DeliveryBulkIdempotency → Bool
is_bulk_key tenant_id user_id idempotency_key k =
    (k.tenant_id == tenant_id)
    && (k.actor_user_id == user_id)
    && str_eq k.idempotency_key idempotency_key

-- `_load_bulk_idempotency`
unfoldable pub load_bulk_idempotency : ℕ → ℕ → String → Db → Option DeliveryBulkIdempotency
load_bulk_idempotency tenant_id user_id idempotency_key db =
    find (is_bulk_key tenant_id user_id idempotency_key) db.delivery_bulk_idempotency

-- `not normalized_ids or len(normalized_ids) != len(order_item_ids)`. `dict.fromkeys` keeps one of
-- each id, so the ids of a request that passes are `order_item_ids` themselves.
abbrev pub has_bad_ids : List ℕ → Bool
has_bad_ids ids = (count_distinct ids == 0) || not (count_distinct ids == length ids)

-- The row that is inserted into `delivery_bulk_idempotency`.
abbrev pub new_bulk_key : ℕ → ℕ → BulkDelivery → ℕ → ℕ → DeliveryBulkIdempotency
new_bulk_key tenant_id user_id r now key_id = record {
  id = key_id;
  tenant_id = tenant_id;
  actor_user_id = user_id;
  table_id = r.table_id;
  idempotency_key = r.idempotency_key;
  request_hash = r.request_hash;
  delivered_order_item_ids = none;
  status = processing;
  created_at = now;
  completed_at = none;
}

abbrev pub is_delivered : Option DeliveryState → Bool
is_delivered none = false
is_delivered (some d) = same_delivery d.status delivered

-- The loop over the rows.
unfoldable pub deliver_each :
    ActorContext → ℕ → ℕ → List ServiceItem → Exec (List DeliveryStateResult)
deliver_each actor tenant_id now [] = pure []
deliver_each actor tenant_id now (item ∷ items) = do
  existing ← query (load_delivery_state tenant_id item.item.id)
  raise_if (is_delivered existing) bulk_item_invalid
  done ← apply_delivery_transition actor item existing delivered now
  rest ← deliver_each actor tenant_id now items
  pure (done ∷ rest)

-- What the replay tells of one row.
abbrev pub replayed_item :
    ServiceItem → Option DeliveryState → List DeliveryStateResult → List DeliveryStateResult
replayed_item item none rest = rest
replayed_item item (some d) rest = to_delivery_state_result item d ∷ rest

-- The loop of `_bulk_replay_result`, which only reads.
abbrev pub replayed_items : ℕ → Db → List ServiceItem → List DeliveryStateResult
replayed_items tenant_id db [] = []
replayed_items tenant_id db (item ∷ items) =
    replayed_item item (load_delivery_state tenant_id item.item.id db)
      (replayed_items tenant_id db items)

-- The ids of a completed key. A completed key has them: both are set by one update.
abbrev pub stored_ids : Option (List ℕ) → List ℕ
stored_ids none = []
stored_ids (some ids) = ids

-- `_bulk_replay_result`, and what comes before it on a key that was used.
unfoldable pub replay_bulk : ℕ → BulkDelivery → DeliveryBulkIdempotency → Exec BulkDeliveryResult
replay_bulk tenant_id r k = do
  raise_if (not (str_eq k.request_hash r.request_hash)) idempotency_conflict
  raise_if (not (is_completed k.status)) idempotency_conflict
  items ← query (λ db.
      replayed_items tenant_id db
        (load_bulk_ready_items tenant_id (stored_ids k.delivered_order_item_ids) db))
  pure (record {
    table_id = r.table_id;
    delivered_items = items;
    already_delivered_items = map (λ d. d.order_item_id) items;
    delivered_at = k.completed_at;
    actor_display_name = none;
    duplicate = true;
  })

abbrev pub head_row : List ServiceItem → Option ServiceItem
head_row [] = none
head_row (item ∷ items) = some item

-- The loop, and what follows it.
unfoldable pub deliver_rows :
    ActorContext → ℕ → ℕ → BulkDelivery → ℕ → List ServiceItem → Exec BulkDeliveryResult
deliver_rows actor tenant_id user_id r now item_rows = do
  delivered_items ← deliver_each actor tenant_id now item_rows
  execute (λ db. record db {
    delivery_bulk_idempotency =
        update (is_bulk_key tenant_id user_id r.idempotency_key)
          (λ k. record k {
            delivered_order_item_ids = some (map (λ d. d.order_item_id) delivered_items);
            status = completed;
            completed_at = some now;
          })
          db.delivery_bulk_idempotency;
  })
  commit
  pure (record {
    table_id = r.table_id;
    delivered_items = delivered_items;
    already_delivered_items = [];
    delivered_at = some now;
    actor_display_name = none;
    duplicate = false;
  })

-- A key that is new. No row at all is on no table, so `item_rows[0]` is there.
unfoldable pub deliver_new : ActorContext → ℕ → ℕ → BulkDelivery → Exec BulkDeliveryResult
deliver_new actor tenant_id user_id r = do
  now ← utc_now
  key_id ← uuid4
  execute (λ db. record db {
    delivery_bulk_idempotency =
        insert (new_bulk_key tenant_id user_id r now key_id) db.delivery_bulk_idempotency;
  })
  item_rows ← query (load_bulk_ready_items tenant_id r.order_item_ids)
  raise_if (not (length item_rows == length r.order_item_ids)) bulk_item_invalid
  raise_if (any (λ i. not (i.table_session.table_id == r.table_id)) item_rows) bulk_mixed_table
  first ← or_raise (head_row item_rows) bulk_mixed_table
  ensure_hall_scope actor first.table.hall_id
  deliver_rows actor tenant_id user_id r now item_rows

unfoldable pub bulk_mark_delivered : ActorContext → BulkDelivery → Exec BulkDeliveryResult
bulk_mark_delivered actor r = do
  require_service_staff_context actor
  tenant_id ← or_raise actor.tenant_id not_authorized
  user_id ← or_raise actor.user_id not_authorized
  raise_if (is_empty (strip r.idempotency_key)) idempotency_key_required
  raise_if (has_bad_ids r.order_item_ids) bulk_item_invalid
  existing ← query (load_bulk_idempotency tenant_id user_id r.idempotency_key)
  case_option existing (deliver_new actor tenant_id user_id r) (replay_bulk tenant_id r)
