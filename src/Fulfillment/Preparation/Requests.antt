-- ===== src/Fulfillment/Preparation/Requests.antt =====
-- The requests of the station app, and what any run of them leaves behind.
use io_tables.Common.{
  ℕ, ◌≡◌, refl, Bool, true, false, none, some, [], ◌∷◌, String, any, strip, is_empty, arith,
}
use io_tables.Actor.{ActorContext}
use io_tables.Database.{
  Db, PreparationItem, PreparationStatus, pending, preparing, ready, cannot_prepare,
  same_preparation,
}
use io_tables.Session.{Session, begin}
use io_tables.Session.Ends.{Ends, Always, ends_rules}
use io_tables.Fulfillment.Preparation.Queue.{load_preparation_item}
use io_tables.Fulfillment.Preparation.Transition.{
  start_preparing, mark_ready, report_cannot_prepare,
}
use io_tables.Fulfillment.Preparation.Trace.{IsTraced, valid_transition, reason_lifecycle}
use io_tables.Fulfillment.Preparation.Steps.{transition-Traced, transition-settled}

-- A request of the station app that writes.
pub data StationRequest : Type 0 where
  start_preparing_request : ℕ → StationRequest
  mark_ready_request : ℕ → StationRequest
  report_cannot_prepare_request : ℕ → String → StationRequest

-- What is committed once the request is answered.
unfoldable pub serve_station : ActorContext → (ℕ → ℕ) → (ℕ → ℕ) → Db → StationRequest → Db
serve_station actor uuids clock db (start_preparing_request item) =
    (start_preparing actor item (begin db uuids clock)).1.committed
serve_station actor uuids clock db (mark_ready_request item) =
    (mark_ready actor item (begin db uuids clock)).1.committed
serve_station actor uuids clock db (report_cannot_prepare_request item reason) =
    (report_cannot_prepare actor item reason (begin db uuids clock)).1.committed

allowed_from_pending :
    (status : PreparationStatus)
    → any (same_preparation status) (pending ∷ []) ≡ true
    → valid_transition (some status) preparing ≡ true
allowed_from_pending status h = ground arith

allowed_from_preparing :
    (status : PreparationStatus)
    → any (same_preparation status) (preparing ∷ []) ≡ true
    → valid_transition (some status) ready ≡ true
allowed_from_preparing status h = ground arith

allowed_from_both :
    (status : PreparationStatus)
    → any (same_preparation status) (pending ∷ preparing ∷ []) ≡ true
    → valid_transition (some status) cannot_prepare ≡ true
allowed_from_both status h = ground arith

nonempty_reason :
    (reason : String)
    → is_empty (strip reason) ≡ false
    → reason_lifecycle cannot_prepare (some (strip reason)) ≡ true
nonempty_reason reason h = ground arith

report-Traced :
    (actor : ActorContext) (item : ℕ) (reason : String) (s : Session)
    → IsTraced s.db
    → IsTraced s.committed
    → Ends (Always IsTraced) (report_cannot_prepare actor item reason s)
unfolding report_cannot_prepare
report-Traced actor item reason s seen inv =
    search
      (
        ends_rules,
        transition-Traced actor item (pending ∷ preparing ∷ []) cannot_prepare
            (some (strip reason)),
        allowed_from_both,
        nonempty_reason reason,
      )
      depth 30

-- One request keeps every log in step with its item.
serve_station-IsTraced :
    (actor : ActorContext) (uuids clock : ℕ → ℕ) (db : Db) (request : StationRequest)
    → IsTraced db
    → IsTraced (serve_station actor uuids clock db request)
unfolding serve_station start_preparing mark_ready
serve_station-IsTraced actor uuids clock db (start_preparing_request item) inv =
    (transition-Traced actor item (pending ∷ []) preparing none (begin db uuids clock)
      (allowed_from_pending, refl) inv inv).at
serve_station-IsTraced actor uuids clock db (mark_ready_request item) inv =
    (transition-Traced actor item (preparing ∷ []) ready none (begin db uuids clock)
      (allowed_from_preparing, refl) inv inv).at
serve_station-IsTraced actor uuids clock db (report_cannot_prepare_request item reason) inv =
    (report-Traced actor item reason (begin db uuids clock) inv inv).at

-- The statuses that no request leaves.
abbrev pub is_final : PreparationStatus → Bool
is_final ready = true
is_final cannot_prepare = true
is_final _ = false

report-settled :
    (actor : ActorContext) (item : ℕ) (reason : String) (s : Session) (t k : ℕ)
    (row : PreparationItem)
    → any (same_preparation row.status) (pending ∷ preparing ∷ []) ≡ false
    → load_preparation_item t k s.db ≡ some row
    → load_preparation_item t k s.committed ≡ some row
    → Ends
        (Always (λ db. load_preparation_item t k db ≡ some row))
        (report_cannot_prepare actor item reason s)
unfolding report_cannot_prepare
report-settled actor item reason s t k row final seen inv =
    search
      (
        ends_rules,
        transition-settled actor item (pending ∷ preparing ∷ []) cannot_prepare
            (some (strip reason)) s t k row,
      )
      depth 30

serve_station-settled :
    (actor : ActorContext) (uuids clock : ℕ → ℕ) (db : Db) (request : StationRequest) (t k : ℕ)
    (row : PreparationItem)
    → is_final row.status ≡ true
    → load_preparation_item t k db ≡ some row
    → load_preparation_item t k (serve_station actor uuids clock db request) ≡ some row
unfolding serve_station start_preparing mark_ready
serve_station-settled actor uuids clock db (start_preparing_request item) t k row final inv =
    (transition-settled actor item (pending ∷ []) preparing none (begin db uuids clock) t k row
      (ground arith) inv inv).at
serve_station-settled actor uuids clock db (mark_ready_request item) t k row final inv =
    (transition-settled actor item (preparing ∷ []) ready none (begin db uuids clock) t k row
      (ground arith) inv inv).at
serve_station-settled actor uuids clock db (report_cannot_prepare_request item reason) t k row final
      inv =
    (report-settled actor item reason (begin db uuids clock) t k row (ground arith) inv inv).at

-- The databases that requests of any station staff, one after the other, can lead to.
pub data StationReaches (db : Db) : Db → Type 0 where
  station_here : StationReaches db db
  station_next :
      {db' : Db} (actor : ActorContext) (uuids clock : ℕ → ℕ) (request : StationRequest)
      → StationReaches db db'
      → StationReaches db (serve_station actor uuids clock db' request)

-- From a database in which each item's log leads from nothing to the item's status by transitions
-- that the CHECK constraints of `preparation_transitions` allow, no sequence of station requests
-- leaves a database in which one does not.
pub logs_lead : {db db' : Db} → IsTraced db → StationReaches db db' → IsTraced db'
logs_lead inv station_here = inv
logs_lead inv (station_next actor uuids clock request reached) =
    serve_station-IsTraced actor uuids clock _ request (logs_lead inv reached)

-- A preparation item that is ready or cannot be prepared is left as it is by every sequence of
-- station requests, whoever makes them.
pub final_stays :
    {db db' : Db} (tenant_id preparation_item_id : ℕ) (row : PreparationItem)
    → is_final row.status ≡ true
    → load_preparation_item tenant_id preparation_item_id db ≡ some row
    → StationReaches db db'
    → load_preparation_item tenant_id preparation_item_id db' ≡ some row
final_stays tenant_id preparation_item_id row final found station_here = found
final_stays tenant_id preparation_item_id row final found
      (station_next actor uuids clock request reached) =
    serve_station-settled actor uuids clock _ request tenant_id preparation_item_id row final
      (final_stays tenant_id preparation_item_id row final found reached)
