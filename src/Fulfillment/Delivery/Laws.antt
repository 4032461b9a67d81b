-- ===== src/Fulfillment/Delivery/Laws.antt =====
-- What the steps of a delivery do to the database.
use io_tables.Common.{
  ℕ, suc, ◌≡◌, refl, true, false, Option, none, some, find, update, insert, [], ◌∷◌, arith,
  Option-cases, inl, inr, find-append, find-update,
}
use io_tables.Actor.{ActorContext}
use io_tables.Database.{Db, DeliveryState, DeliveryStatus, delivered, same_delivery}
use io_tables.Session.{◌>>=◌, case_option, Session}
use io_tables.Session.Ends.{Ends, Pending, Ends-Pending, ends_rules}
use io_tables.Fulfillment.Delivery.Queries.{
  ServiceItem, DeliveryStateResult, status_of, is_state, load_delivery_state,
}
use io_tables.Fulfillment.Delivery.Transition.{
  is_refused, new_state, is_state_at, advanced, new_delivery_transition, create_state,
  advance_state, delivery_writes, apply_delivery_transition,
}

-- The database behind the writes of one step.
abbrev pub written_db : ℕ → ℕ → ℕ → Option DeliveryState → DeliveryStatus → ℕ → Session → Db
written_db tenant_id user_id order_item_id none to_status now s = record s.db {
  delivery_states =
      insert (new_state tenant_id user_id order_item_id to_status now (s.uuids s.drawn))
        s.db.delivery_states;
  delivery_transitions =
      insert
        (new_delivery_transition tenant_id user_id (s.uuids s.drawn) order_item_id none to_status
          now (s.uuids (suc s.drawn)))
        s.db.delivery_transitions;
}
written_db tenant_id user_id order_item_id (some d) to_status now s = record s.db {
  delivery_states =
      update (is_state_at tenant_id order_item_id d.status) (advanced user_id to_status now)
        s.db.delivery_states;
  delivery_transitions =
      insert
        (new_delivery_transition tenant_id user_id d.id order_item_id (some d.status) to_status now
          (s.uuids s.drawn))
        s.db.delivery_transitions;
}

delivery_writes-Pending :
    (Q : Db → Type 0) (tenant_id user_id order_item_id : ℕ) (existing : Option DeliveryState)
    (to_status : DeliveryStatus) (now : ℕ) (s : Session)
    → Q (written_db tenant_id user_id order_item_id existing to_status now s)
    → Ends
        (Pending Q s.committed)
        (delivery_writes tenant_id user_id order_item_id existing to_status now s)
unfolding delivery_writes create_state advance_state case_option ◌>>=◌
delivery_writes-Pending Q tenant_id user_id order_item_id none to_status now s kept = record {
  at = (refl, kept);
}
delivery_writes-Pending Q tenant_id user_id order_item_id (some d) to_status now s kept =
    elim (Option-cases (find (is_state_at tenant_id order_item_id d.status) s.db.delivery_states)) [
      | inl missing ↦ simp missing (record { at = refl })
      | inr (row, hit) ↦ simp hit (record { at = (refl, kept) })
    ]

pub apply_delivery_transition-Pending :
    (Q : Db → Type 0) (actor : ActorContext) (item : ServiceItem) (existing : Option DeliveryState)
    (to_status : DeliveryStatus) (now : ℕ) (s : Session)
    → ((tenant_id user_id : ℕ)
        → actor.tenant_id ≡ some tenant_id
        → is_refused (status_of existing) to_status ≡ false
        → Q (written_db tenant_id user_id item.item.id existing to_status now s))
    → Ends (Pending Q s.committed) (apply_delivery_transition actor item existing to_status now s)
unfolding apply_delivery_transition
apply_delivery_transition-Pending Q actor item existing to_status now s kept =
    search
      (
        ends_rules,
        Ends-Pending {0, 0} {A = Unit {0}} {B = DeliveryStateResult} {P = Pending Q s.committed} Q
            s.committed,
        delivery_writes-Pending Q,
      )
      depth 30

-- A state that is delivered is found as it was behind a step of any item.
pub delivered-written :
    (tenant_id user_id order_item_id : ℕ) (existing : Option DeliveryState)
    (to_status : DeliveryStatus) (now : ℕ) (s : Session) (t k : ℕ) (row : DeliveryState)
    → is_refused (status_of existing) to_status ≡ false
    → same_delivery row.status delivered ≡ true
    → load_delivery_state t k s.db ≡ some row
    → load_delivery_state t k (written_db tenant_id user_id order_item_id existing to_status now s)
      ≡ some row
unfolding load_delivery_state
delivered-written tenant_id user_id order_item_id none to_status now s t k row step final found =
    ground (
      arith,
      find-append (is_state t k) s.db.delivery_states
          (new_state tenant_id user_id order_item_id to_status now (s.uuids s.drawn) ∷ []),
    )
delivered-written tenant_id user_id order_item_id (some d) to_status now s t k row step final
      found =
    ground (
      arith,
      find-update (is_state t k) (is_state_at tenant_id order_item_id d.status)
          (advanced user_id to_status now) (λ x. refl) s.db.delivery_states,
    )
