-- ===== src/Fulfillment/Preparation/Steps.antt =====
-- A transition, as it ends: the log and the final statuses.
use io_tables.Common.{
  ℕ, ◌≡◌, ◌∙◌, Bool, true, false, not, ◌&&◌, Option, some, List, String, any, arith, ◌==◌,
  Bool-cases, inl, inr,
}
use io_tables.Actor.{ActorContext}
use io_tables.Errors.{ApiError}
use io_tables.Database.{PreparationItem, PreparationStatus, same_preparation}
use io_tables.Session.{◌>>=◌, ◌>>◌, Session, query, or_raise}
use io_tables.Session.Ends.{Ends, Always, ends_rules}
use io_tables.Fulfillment.Preparation.Queue.{
  ensure_station_scope, list_queue_items, load_preparation_item, is_item,
}
use io_tables.Fulfillment.Preparation.Transition.{head_item, transition_writes, transition}
use io_tables.Fulfillment.Preparation.Laws.{
  transition_writes_lem, moved_session, load_preparation_item-moved_other,
}
use io_tables.Fulfillment.Preparation.Trace.{
  IsTraced, IsTraced-moved, valid_transition, reason_lifecycle,
}

-- The statuses that a request may leave and the one it sets form lawful steps.
abbrev pub IsLawfulMove : List PreparationStatus → PreparationStatus → Option String → Type 0
IsLawfulMove allowed_from to_status reason =
    ((status : PreparationStatus)
      → any (same_preparation status) allowed_from ≡ true
      → valid_transition (some status) to_status ≡ true)
    × (reason_lifecycle to_status reason ≡ true)

module _ {P : Bool → Session → Type 0} (tenant_id user_id preparation_item_id : ℕ)
    (row : PreparationItem) (to_status : PreparationStatus) (reason : Option String) (e : ApiError)
    (s : Session) where
  answer-Ends :
      (s' : Session)
      → P true s'
      → P false s'
      → Ends P (
          (query (list_queue_items (is_item tenant_id preparation_item_id)) >>= λ items.
          or_raise (head_item items) e)
            s')
  answer-Ends s' yes_ok no_ok = search ends_rules depth 10

  -- The writes and the answer behind them.
  writes-Ends :
      load_preparation_item tenant_id preparation_item_id s.db ≡ some row
      → P true (moved_session tenant_id user_id preparation_item_id row.status to_status reason s)
      → P false (moved_session tenant_id user_id preparation_item_id row.status to_status reason s)
      → Ends P (
          (transition_writes tenant_id user_id preparation_item_id row.status to_status reason
              >> (query (list_queue_items (is_item tenant_id preparation_item_id)) >>= λ items.
                  or_raise (head_item items) e))
            s)
  unfolding ◌>>=◌
  writes-Ends found yes_ok no_ok =
      rw (transition_writes_lem tenant_id user_id preparation_item_id row to_status reason s found)
        (answer-Ends
          (moved_session tenant_id user_id preparation_item_id row.status to_status reason s) yes_ok
          no_ok)

-- A session that has written nothing yet.
module _ (actor : ActorContext) (preparation_item_id : ℕ) (allowed_from : List PreparationStatus)
    (to_status : PreparationStatus) (reason : Option String) (s : Session) where
  allowed_of_guard :
      (row : PreparationItem)
      → not (any (same_preparation row.status) allowed_from) ≡ false
      → any (same_preparation row.status) allowed_from ≡ true
  allowed_of_guard row h = ground arith

  pub transition-Traced :
      IsLawfulMove allowed_from to_status reason
      → IsTraced s.db
      → IsTraced s.committed
      → Ends
          (Always IsTraced)
          (transition actor preparation_item_id allowed_from to_status reason s)
  unfolding transition ensure_station_scope
  transition-Traced (lawful, why) seen inv =
      search (ends_rules, writes-Ends, IsTraced-moved, lawful, allowed_of_guard) depth 30

  settled-moved :
      (t k tenant_id user_id : ℕ) (row moving : PreparationItem)
      → any (same_preparation row.status) allowed_from ≡ false
      → load_preparation_item t k s.db ≡ some row
      → load_preparation_item tenant_id preparation_item_id s.db ≡ some moving
      → any (same_preparation moving.status) allowed_from ≡ true
      → load_preparation_item t k
          (moved_session tenant_id user_id preparation_item_id moving.status to_status reason s).db
        ≡ some row
  settled-moved t k tenant_id user_id row moving final seen found allowed =
      elim (Bool-cases ((t == tenant_id) && (k == preparation_item_id))) [
        | inl same ↦ ground arith
        | inr other ↦
            load_preparation_item-moved_other tenant_id user_id preparation_item_id moving.status
              to_status reason s t k other
            ∙ seen
      ]

  -- An item that no request may move is where it was.
  pub transition-settled :
      (t k : ℕ) (row : PreparationItem)
      → any (same_preparation row.status) allowed_from ≡ false
      → load_preparation_item t k s.db ≡ some row
      → load_preparation_item t k s.committed ≡ some row
      → Ends
          (Always (λ db. load_preparation_item t k db ≡ some row))
          (transition actor preparation_item_id allowed_from to_status reason s)
  unfolding transition ensure_station_scope
  transition-settled t k row final seen inv =
      search (ends_rules, writes-Ends, allowed_of_guard, settled-moved t k) depth 30
