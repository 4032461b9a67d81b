-- ===== src/Fulfillment/Preparation/Transition.antt =====
-- PreparationMutationService of modules/fulfillment/preparation.py.
use io_tables.Common.{
  ℕ, String, Bool, not, ◌&&◌, Option, none, some, List, [], ◌∷◌, find, update, insert, any, strip,
  is_empty, ◌==◌,
}
use io_tables.Actor.{ActorContext}
use io_tables.Errors.{
  not_authorized, not_found_or_hidden, reason_required, invalid_preparation_transition,
}
use io_tables.Database.{
  PreparationItem, PreparationStatus, PreparationTransition, pending, preparing, ready,
  cannot_prepare, same_preparation,
}
use io_tables.Session.{
  Exec, ◌>>=◌, ◌>>◌, raise_if, or_raise, query, execute, commit, uuid4, utc_now,
}
use io_tables.Fulfillment.Preparation.Queue.{
  PreparationQueueItem, require_station_staff, ensure_station_scope, list_queue_items, is_item,
  load_preparation_item,
}

-- The condition of the update: nobody else has moved the item since it was read.
abbrev pub is_unmoved : ℕ → ℕ → PreparationStatus → PreparationItem → Bool
is_unmoved tenant_id preparation_item_id status p =
    (p.tenant_id == tenant_id) && (p.id == preparation_item_id) && same_preparation p.status status

abbrev pub moved : ℕ → PreparationStatus → Option String → ℕ → PreparationItem → PreparationItem
moved user_id to_status reason now p = record p {
  status = to_status;
  cannot_prepare_reason = reason;
  updated_by_user_id = some user_id;
  updated_at = now;
}

-- The row that is inserted into `preparation_transitions`.
abbrev pub new_transition :
    ℕ
    → ℕ
    → ℕ
    → PreparationStatus
    → PreparationStatus
    → Option String
    → ℕ
    → ℕ
    → PreparationTransition
new_transition tenant_id user_id preparation_item_id from_status to_status reason now
      transition_id =
    record {
      id = transition_id;
      tenant_id = tenant_id;
      preparation_item_id = preparation_item_id;
      actor_user_id = some user_id;
      from_status = some from_status;
      to_status = to_status;
      reason = reason;
      created_at = now;
    }

abbrev pub head_item : List PreparationQueueItem → Option PreparationQueueItem
head_item [] = none
head_item (x ∷ xs) = some x

-- The writes of `_transition`, up to the commit. What the update returns is none if it hit no row.
unfoldable pub transition_writes :
    ℕ → ℕ → ℕ → PreparationStatus → PreparationStatus → Option String → Exec (Unit {0})
transition_writes tenant_id user_id preparation_item_id from_status to_status reason = do
  now ← utc_now
  hit ←
      query (λ db. find (is_unmoved tenant_id preparation_item_id from_status) db.preparation_items)
  execute (λ db. record db {
    preparation_items =
        update (is_unmoved tenant_id preparation_item_id from_status)
          (moved user_id to_status reason now) db.preparation_items;
  })
  still ← or_raise hit invalid_preparation_transition
  transition_id ← uuid4
  execute (λ db. record db {
    preparation_transitions =
        insert
          (new_transition tenant_id user_id preparation_item_id from_status to_status reason now
            transition_id)
          db.preparation_transitions;
  })
  commit

-- `_transition`
unfoldable pub transition :
    ActorContext
    → ℕ
    → List PreparationStatus
    → PreparationStatus
    → Option String
    → Exec PreparationQueueItem
unfolding require_station_staff
transition actor preparation_item_id allowed_from to_status reason = do
  require_station_staff actor
  tenant_id ← or_raise actor.tenant_id not_authorized
  user_id ← or_raise actor.user_id not_authorized
  found ← query (load_preparation_item tenant_id preparation_item_id)
  row ← or_raise found not_found_or_hidden
  ensure_station_scope actor row.station_id
  raise_if (not (any (same_preparation row.status) allowed_from)) invalid_preparation_transition
  transition_writes tenant_id user_id preparation_item_id row.status to_status reason
  items ← query (list_queue_items (is_item tenant_id preparation_item_id))
  or_raise (head_item items) not_found_or_hidden

unfoldable pub start_preparing : ActorContext → ℕ → Exec PreparationQueueItem
start_preparing actor preparation_item_id =
    transition actor preparation_item_id (pending ∷ []) preparing none

unfoldable pub mark_ready : ActorContext → ℕ → Exec PreparationQueueItem
mark_ready actor preparation_item_id =
    transition actor preparation_item_id (preparing ∷ []) ready none

unfoldable pub report_cannot_prepare : ActorContext → ℕ → String → Exec PreparationQueueItem
report_cannot_prepare actor preparation_item_id reason = do
  raise_if (is_empty (strip reason)) reason_required
  transition actor preparation_item_id (pending ∷ preparing ∷ []) cannot_prepare
      (some (strip reason))
