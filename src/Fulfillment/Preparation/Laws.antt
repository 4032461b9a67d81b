-- ===== src/Fulfillment/Preparation/Laws.antt =====
-- What `_transition` does to the database.
use io_tables.Common.{
  ℕ, suc, ◌≡◌, refl, String, Option, some, true, false, ◌&&◌, find, update, insert, arith, ◌==◌,
  Option-cases, inl, inr, find-sharper, find-update, find_sound,
}
use io_tables.Database.{
  Db, PreparationItem, PreparationStatus, pending, preparing, ready, cannot_prepare,
  same_preparation,
}
use io_tables.Session.{◌>>=◌, Session, ok}
use io_tables.Fulfillment.Preparation.Queue.{is_item, load_preparation_item}
use io_tables.Fulfillment.Preparation.Transition.{
  is_unmoved, moved, new_transition, transition_writes,
}

-- The database behind the writes of a transition.
abbrev pub moved_db :
    ℕ → ℕ → ℕ → PreparationStatus → PreparationStatus → Option String → Session → Db
moved_db tenant_id user_id preparation_item_id from_status to_status reason s = record s.db {
  preparation_items =
      update (is_unmoved tenant_id preparation_item_id from_status)
        (moved user_id to_status reason (s.clock s.read)) s.db.preparation_items;
  preparation_transitions =
      insert
        (new_transition tenant_id user_id preparation_item_id from_status to_status reason
          (s.clock s.read) (s.uuids s.drawn))
        s.db.preparation_transitions;
}

-- The session behind them: everything is committed.
abbrev pub moved_session :
    ℕ → ℕ → ℕ → PreparationStatus → PreparationStatus → Option String → Session → Session
moved_session tenant_id user_id preparation_item_id from_status to_status reason s = record {
  db = moved_db tenant_id user_id preparation_item_id from_status to_status reason s;
  committed = moved_db tenant_id user_id preparation_item_id from_status to_status reason s;
  uuids = s.uuids;
  drawn = suc s.drawn;
  clock = s.clock;
  read = suc s.read;
}

pub same_preparation_refl : (status : PreparationStatus) → same_preparation status status ≡ true
same_preparation_refl pending = refl
same_preparation_refl preparing = refl
same_preparation_refl ready = refl
same_preparation_refl cannot_prepare = refl

-- The item that was read is the item that the update's condition names.
is_unmoved_found :
    (tenant_id preparation_item_id : ℕ) (row : PreparationItem) (db : Db)
    → load_preparation_item tenant_id preparation_item_id db ≡ some row
    → find (is_unmoved tenant_id preparation_item_id row.status) db.preparation_items ≡ some row
unfolding load_preparation_item
is_unmoved_found tenant_id preparation_item_id row db found =
    let here = find_sound (is_item tenant_id preparation_item_id) db.preparation_items row found in
    find-sharper (is_item tenant_id preparation_item_id)
      (is_unmoved tenant_id preparation_item_id row.status) (λ p h. ground arith)
      db.preparation_items row found (ground (arith, same_preparation_refl row.status))

module _ (tenant_id user_id preparation_item_id : ℕ) (row : PreparationItem)
    (to_status : PreparationStatus) (reason : Option String) (s : Session)
    (found : load_preparation_item tenant_id preparation_item_id s.db ≡ some row) where
  pub transition_writes_lem :
      transition_writes tenant_id user_id preparation_item_id row.status to_status reason s
      ≡ (ok tt, moved_session tenant_id user_id preparation_item_id row.status to_status reason s)
  unfolding transition_writes ◌>>=◌
  transition_writes_lem = simp (is_unmoved_found tenant_id preparation_item_id row s.db found)

  -- The item, as it is found behind the writes.
  pub load_preparation_item-moved :
      load_preparation_item tenant_id preparation_item_id
        (moved_db tenant_id user_id preparation_item_id row.status to_status reason s)
      ≡ some (moved user_id to_status reason (s.clock s.read) row)
  unfolding load_preparation_item
  load_preparation_item-moved = ground (
    arith,
    find_sound (is_item tenant_id preparation_item_id) s.db.preparation_items row,
    same_preparation_refl row.status,
    find-update (is_item tenant_id preparation_item_id)
        (is_unmoved tenant_id preparation_item_id row.status)
        (moved user_id to_status reason (s.clock s.read)) (λ x. refl) s.db.preparation_items,
  )

-- Another item is found as it was.
pub load_preparation_item-moved_other :
    (tenant_id user_id preparation_item_id : ℕ) (from_status to_status : PreparationStatus)
    (reason : Option String) (s : Session) (t k : ℕ)
    → (t == tenant_id) && (k == preparation_item_id) ≡ false
    → load_preparation_item t k
        (moved_db tenant_id user_id preparation_item_id from_status to_status reason s)
      ≡ load_preparation_item t k s.db
unfolding load_preparation_item
load_preparation_item-moved_other tenant_id user_id preparation_item_id from_status to_status reason
      s t k other =
    elim (Option-cases (find (is_item t k) s.db.preparation_items)) [
      | inl missing ↦ ground (
        arith,
        find-update (is_item t k) (is_unmoved tenant_id preparation_item_id from_status)
            (moved user_id to_status reason (s.clock s.read)) (λ x. refl) s.db.preparation_items,
      )
      | inr (row, there) ↦ ground (
        arith,
        find_sound (is_item t k) s.db.preparation_items row,
        find-update (is_item t k) (is_unmoved tenant_id preparation_item_id from_status)
            (moved user_id to_status reason (s.clock s.read)) (λ x. refl) s.db.preparation_items,
      )
    ]
