-- ===== src/Fulfillment/Preparation/Trace.antt =====
-- The log of an item's transitions against its status, with the CHECK constraints of
-- `preparation_transitions` in database/schema.py.
use io_tables.Common.{
  select-insert, ℕ, ◌≡◌, String, Bool, true, false, not, ◌&&◌, ◌||◌, Option, none, some, List, [],
  ◌∷◌, select, insert, is_empty, is_none, arith, ◌==◌, Bool-cases, inl, inr, if◌then◌else◌,
}
use io_tables.Database.{
  Db, PreparationItem, PreparationTransition, PreparationStatus, pending, preparing, ready,
  cannot_prepare, same_preparation,
}
use io_tables.Session.{Session}
use io_tables.Fulfillment.Preparation.Queue.{load_preparation_item}
use io_tables.Fulfillment.Preparation.Transition.{new_transition}
use io_tables.Fulfillment.Preparation.Laws.{
  moved_db, same_preparation_refl, load_preparation_item-moved, load_preparation_item-moved_other,
}

-- The constraint `valid_transition`.
abbrev pub valid_transition : Option PreparationStatus → PreparationStatus → Bool
valid_transition none to_status = same_preparation to_status pending
valid_transition (some pending) to_status =
    same_preparation to_status preparing || same_preparation to_status cannot_prepare
valid_transition (some preparing) to_status =
    same_preparation to_status ready || same_preparation to_status cannot_prepare
valid_transition (some _) to_status = false

-- `reason is not null and reason <> ''`
abbrev pub is_reason : Option String → Bool
is_reason none = false
is_reason (some reason) = not (is_empty reason)

-- The constraint `cannot_prepare_reason_lifecycle`.
abbrev pub reason_lifecycle : PreparationStatus → Option String → Bool
reason_lifecycle to_status reason =
    if same_preparation to_status cannot_prepare then is_reason reason else is_none reason

-- The constraint `actor_required_after_initial`.
abbrev pub actor_required : PreparationTransition → Bool
actor_required t = is_none t.from_status || not (is_none t.actor_user_id)

abbrev pub is_lawful : PreparationTransition → Bool
is_lawful t =
    valid_transition t.from_status t.to_status
    && reason_lifecycle t.to_status t.reason
    && actor_required t

abbrev pub same_state : Option PreparationStatus → Option PreparationStatus → Bool
same_state none none = true
same_state (some a) (some b) = same_preparation a b
same_state _ _ = false

-- The lawful transitions lead from one state to the other, each from where the one before ended.
abbrev pub leads :
    Option PreparationStatus → List PreparationTransition → Option PreparationStatus → Bool
leads from [] to = same_state from to
leads from (t ∷ ts) to =
    is_lawful t && same_state from t.from_status && leads (some t.to_status) ts to

abbrev pub is_transition_of : ℕ → ℕ → PreparationTransition → Bool
is_transition_of tenant_id preparation_item_id t =
    (t.tenant_id == tenant_id) && (t.preparation_item_id == preparation_item_id)

-- Each item's log leads from nothing to the status that the item shows.
abbrev pub IsTraced : Db → Type 0
IsTraced db =
    (tenant_id preparation_item_id : ℕ) (row : PreparationItem)
    → load_preparation_item tenant_id preparation_item_id db ≡ some row
    → leads none
        (select (is_transition_of tenant_id preparation_item_id) db.preparation_transitions)
        (some row.status)
      ≡ true

leads-insert :
    (from : Option PreparationStatus) (status : PreparationStatus) (t : PreparationTransition)
    (ts : List PreparationTransition)
    → leads from ts (some status) ≡ true
    → t.from_status ≡ some status
    → is_lawful t ≡ true
    → leads from (insert t ts) (some t.to_status) ≡ true
leads-insert from status t [] h step lawful = ground (arith, same_preparation_refl t.to_status)
leads-insert from status t (u ∷ ts) h step lawful =
    ground (arith, leads-insert (some u.to_status) status t ts)

-- A lawful step of one item keeps all logs.
pub IsTraced-moved :
    (tenant_id user_id preparation_item_id : ℕ) (row : PreparationItem)
    (to_status : PreparationStatus) (reason : Option String) (s : Session)
    → load_preparation_item tenant_id preparation_item_id s.db ≡ some row
    → valid_transition (some row.status) to_status ≡ true
    → reason_lifecycle to_status reason ≡ true
    → IsTraced s.db
    → IsTraced (moved_db tenant_id user_id preparation_item_id row.status to_status reason s)
IsTraced-moved tenant_id user_id preparation_item_id row to_status reason s found valid why inv t k
      x there =
    let step =
      new_transition tenant_id user_id preparation_item_id row.status to_status reason
        (s.clock s.read) (s.uuids s.drawn) in
    elim (Bool-cases ((t == tenant_id) && (k == preparation_item_id))) [
      | inl same ↦ ground (
        arith,
        inv tenant_id preparation_item_id row found,
        load_preparation_item-moved tenant_id user_id preparation_item_id row to_status reason s
            found,
        select-insert (is_transition_of t k) step s.db.preparation_transitions,
        leads-insert none row.status step
            (select (is_transition_of t k) s.db.preparation_transitions),
      )
      | inr other ↦ ground (
        arith,
        inv t k x,
        load_preparation_item-moved_other tenant_id user_id preparation_item_id row.status to_status
            reason s t k other,
        select-insert (is_transition_of t k) step s.db.preparation_transitions,
      )
    ]
