-- ===== src/Fulfillment/Delivery/Trace.antt =====
-- The log of an item's deliveries against its state, with the CHECK constraint of
-- `delivery_transitions` in database/schema.py.
use io_tables.Common.{
  select-insert, ℕ, suc, ◌≡◌, refl, Bool, true, false, ◌&&◌, Option, none, some, List, [], ◌∷◌,
  find, select, insert, arith, ◌==◌, Bool-cases, Option-cases, inl, inr, if◌then◌else◌, find-append,
  find-update, find_sound,
}
use io_tables.Database.{
  Db, DeliveryState, DeliveryTransition, DeliveryStatus, picked_up, delivered, same_delivery,
}
use io_tables.Session.{Session}
use io_tables.Fulfillment.Delivery.Queries.{status_of, is_state, load_delivery_state}
use io_tables.Fulfillment.Delivery.Transition.{
  is_refused, new_state, is_state_at, advanced, new_delivery_transition,
}
use io_tables.Fulfillment.Delivery.Laws.{written_db}
use io_tables.Fulfillment.Delivery.Each.{same_delivery_refl}

-- The constraint `valid_transition`.
abbrev pub valid_delivery : Option DeliveryStatus → DeliveryStatus → Bool
valid_delivery none to_status = true
valid_delivery (some from_status) to_status =
    same_delivery from_status picked_up && same_delivery to_status delivered

abbrev pub same_delivery_state : Option DeliveryStatus → Option DeliveryStatus → Bool
same_delivery_state none none = true
same_delivery_state (some a) (some b) = same_delivery a b
same_delivery_state _ _ = false

-- The lawful transitions lead from one state to the other, each from where the one before ended.
abbrev pub delivery_leads :
    Option DeliveryStatus → List DeliveryTransition → Option DeliveryStatus → Bool
delivery_leads from [] to = same_delivery_state from to
delivery_leads from (t ∷ ts) to =
    valid_delivery t.from_status t.to_status
    && same_delivery_state from t.from_status
    && delivery_leads (some t.to_status) ts to

abbrev pub is_delivery_of : ℕ → ℕ → DeliveryTransition → Bool
is_delivery_of tenant_id order_item_id t =
    (t.tenant_id == tenant_id) && (t.order_item_id == order_item_id)

-- Each item's log leads from nothing to its state, and is empty where it has none.
abbrev pub IsLogged : Db → Type 0
IsLogged db =
    (tenant_id order_item_id : ℕ)
    → delivery_leads none (select (is_delivery_of tenant_id order_item_id) db.delivery_transitions)
        (status_of (load_delivery_state tenant_id order_item_id db))
      ≡ true

delivery_leads-insert :
    (from status : Option DeliveryStatus) (t : DeliveryTransition) (ts : List DeliveryTransition)
    → delivery_leads from ts status ≡ true
    → t.from_status ≡ status
    → valid_delivery status t.to_status ≡ true
    → delivery_leads from (insert t ts) (some t.to_status) ≡ true
delivery_leads-insert from status t [] h step lawful =
    ground (arith, same_delivery_refl t.to_status)
delivery_leads-insert from status t (u ∷ ts) h step lawful =
    ground (arith, delivery_leads-insert (some u.to_status) status t ts)

valid_of_step :
    (from : Option DeliveryStatus) (to_status : DeliveryStatus)
    → is_refused from to_status ≡ false
    → valid_delivery from to_status ≡ true
valid_of_step none to_status step = refl
valid_of_step (some from) picked_up step = ground arith
valid_of_step (some from) delivered step = ground arith

-- The state of the item behind a step of it.
status_of-written :
    (tenant_id user_id order_item_id : ℕ) (existing : Option DeliveryState)
    (to_status : DeliveryStatus) (now : ℕ) (s : Session)
    → load_delivery_state tenant_id order_item_id s.db ≡ existing
    → status_of (
        load_delivery_state tenant_id order_item_id
          (written_db tenant_id user_id order_item_id existing to_status now s))
      ≡ some to_status
unfolding load_delivery_state
status_of-written tenant_id user_id order_item_id none to_status now s e = ground (
  arith,
  find-append (is_state tenant_id order_item_id) s.db.delivery_states
      (new_state tenant_id user_id order_item_id to_status now (s.uuids s.drawn) ∷ []),
)
status_of-written tenant_id user_id order_item_id (some d) to_status now s e = ground (
  arith,
  same_delivery_refl d.status,
  find_sound (is_state tenant_id order_item_id) s.db.delivery_states d,
  find-update (is_state tenant_id order_item_id) (is_state_at tenant_id order_item_id d.status)
      (advanced user_id to_status now) (λ x. refl) s.db.delivery_states,
)

-- The state of another item.
load_delivery_state-written_other :
    (tenant_id user_id order_item_id : ℕ) (existing : Option DeliveryState)
    (to_status : DeliveryStatus) (now : ℕ) (s : Session) (t k : ℕ)
    → (t == tenant_id) && (k == order_item_id) ≡ false
    → load_delivery_state t k (written_db tenant_id user_id order_item_id existing to_status now s)
      ≡ load_delivery_state t k s.db
unfolding load_delivery_state
load_delivery_state-written_other tenant_id user_id order_item_id none to_status now s t k other =
    elim (Option-cases (find (is_state t k) s.db.delivery_states)) [
      | inl missing ↦ ground (
        arith,
        find-append (is_state t k) s.db.delivery_states
            (new_state tenant_id user_id order_item_id to_status now (s.uuids s.drawn) ∷ []),
      )
      | inr (row, there) ↦ ground (
        arith,
        find-append (is_state t k) s.db.delivery_states
            (new_state tenant_id user_id order_item_id to_status now (s.uuids s.drawn) ∷ []),
      )
    ]
load_delivery_state-written_other tenant_id user_id order_item_id (some d) to_status now s t k
      other =
    elim (Option-cases (find (is_state t k) s.db.delivery_states)) [
      | inl missing ↦ ground (
        arith,
        find-update (is_state t k) (is_state_at tenant_id order_item_id d.status)
            (advanced user_id to_status now) (λ x. refl) s.db.delivery_states,
      )
      | inr (row, there) ↦ ground (
        arith,
        find_sound (is_state t k) s.db.delivery_states row,
        find-update (is_state t k) (is_state_at tenant_id order_item_id d.status)
            (advanced user_id to_status now) (λ x. refl) s.db.delivery_states,
      )
    ]

-- The row that a step adds to the log.
abbrev step_of :
    ℕ → ℕ → ℕ → Option DeliveryState → DeliveryStatus → ℕ → Session → DeliveryTransition
step_of tenant_id user_id order_item_id none to_status now s =
    new_delivery_transition tenant_id user_id (s.uuids s.drawn) order_item_id none to_status now
      (s.uuids (suc s.drawn))
step_of tenant_id user_id order_item_id (some d) to_status now s =
    new_delivery_transition tenant_id user_id d.id order_item_id (some d.status) to_status now
      (s.uuids s.drawn)

step_of_lem :
    (tenant_id user_id order_item_id : ℕ) (existing : Option DeliveryState)
    (to_status : DeliveryStatus) (now : ℕ) (s : Session) (t k : ℕ)
    → (select
          (is_delivery_of t k)
          (written_db tenant_id user_id order_item_id existing to_status now s).delivery_transitions
        ≡ (if (tenant_id == t) && (order_item_id == k)
            then insert
                (step_of tenant_id user_id order_item_id existing to_status now s)
                (select (is_delivery_of t k) s.db.delivery_transitions)
            else select (is_delivery_of t k) s.db.delivery_transitions))
      × ((step_of tenant_id user_id order_item_id existing to_status now s).from_status
          ≡ status_of existing)
      × ((step_of tenant_id user_id order_item_id existing to_status now s).to_status ≡ to_status)
step_of_lem tenant_id user_id order_item_id none to_status now s t k = (
  select-insert (is_delivery_of t k) (step_of tenant_id user_id order_item_id none to_status now s)
      s.db.delivery_transitions,
  refl,
  refl,
)
step_of_lem tenant_id user_id order_item_id (some d) to_status now s t k = (
  select-insert (is_delivery_of t k)
      (step_of tenant_id user_id order_item_id (some d) to_status now s) s.db.delivery_transitions,
  refl,
  refl,
)

-- A step that is not refused keeps all logs.
pub IsLogged-written :
    (tenant_id user_id order_item_id : ℕ) (existing : Option DeliveryState)
    (to_status : DeliveryStatus) (now : ℕ) (s : Session)
    → load_delivery_state tenant_id order_item_id s.db ≡ existing
    → is_refused (status_of existing) to_status ≡ false
    → IsLogged s.db
    → IsLogged (written_db tenant_id user_id order_item_id existing to_status now s)
IsLogged-written tenant_id user_id order_item_id existing to_status now s e step inv t k =
    let row = step_of tenant_id user_id order_item_id existing to_status now s in
    let (added, from, to) =
      step_of_lem tenant_id user_id order_item_id existing to_status now s t k in
    elim (Bool-cases ((t == tenant_id) && (k == order_item_id))) [
      | inl same ↦ ground (
        arith,
        added,
        from,
        to,
        e,
        inv tenant_id order_item_id,
        status_of-written tenant_id user_id order_item_id existing to_status now s e,
        valid_of_step (status_of existing) to_status step,
        delivery_leads-insert none (status_of existing) row
            (select (is_delivery_of t k) s.db.delivery_transitions),
      )
      | inr other ↦ ground (
        arith,
        added,
        inv t k,
        load_delivery_state-written_other tenant_id user_id order_item_id existing to_status now s t
            k other,
      )
    ]
